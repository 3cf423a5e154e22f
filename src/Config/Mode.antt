-- ===== src/Config/Mode.antt =====
-- Which audio mode `Config::resolve_audio_mode` of config.rs selects.
use signal_call_tunnel.Base.{
  ◌≡◌, refl, ◌↔◌, true, ap₂, [], ◌∷◌, map, Option, none, some, Text, codes, arith, unwrap_or,
}
use signal_call_tunnel.Config.{
  Config, pipe, to_ascii_lowercase, eq_ignore_ascii_case, or_else, resolve_audio_mode,
}

eq_ignore_ascii_case_sound :
    (s t : Text)
    → eq_ignore_ascii_case s t ≡ true
    → map to_ascii_lowercase s ≡ map to_ascii_lowercase t
unfolding eq_ignore_ascii_case
eq_ignore_ascii_case_sound [] [] h = refl
eq_ignore_ascii_case_sound [] (y ∷ t) h = ground arith
eq_ignore_ascii_case_sound (x ∷ s) [] h = ground arith
eq_ignore_ascii_case_sound (x ∷ s) (y ∷ t) h =
    ap₂ ◌∷◌ (ground arith) (eq_ignore_ascii_case_sound s t (ground arith))

eq_ignore_ascii_case_complete :
    (s t : Text)
    → map to_ascii_lowercase s ≡ map to_ascii_lowercase t
    → eq_ignore_ascii_case s t ≡ true
unfolding eq_ignore_ascii_case
eq_ignore_ascii_case_complete [] [] h = refl
eq_ignore_ascii_case_complete [] (y ∷ t) h = cc
eq_ignore_ascii_case_complete (x ∷ s) [] h = cc
eq_ignore_ascii_case_complete (x ∷ s) (y ∷ t) h = ground (arith, eq_ignore_ascii_case_complete s t)

-- The text is "pipe", in letters of either case.
abbrev pub IsPipe : Text → Type 0
IsPipe mode = map to_ascii_lowercase mode ≡ codes "pipe"

-- Pipe mode is selected by the configuration, or by the environment where the configuration says
-- nothing, and by no other text.
abbrev pub Selects : Option Text → Option Text → Type 0
Selects (some mode) env_mode = IsPipe mode
Selects none (some mode) = IsPipe mode
Selects none none = ⊥

eq-IsPipe_iff : (s : Text) → (eq_ignore_ascii_case s (codes "pipe") ≡ true) ↔ IsPipe s
unfolding to_ascii_lowercase
eq-IsPipe_iff s =
    (eq_ignore_ascii_case_sound s (codes "pipe"), eq_ignore_ascii_case_complete s (codes "pipe"))

-- `resolve_audio_mode` answers pipe exactly if the field says "pipe" in any case, or the field is
-- absent and the environment says so.
pub resolve_audio_mode-pipe_iff :
    (env_mode : Option Text) (config : Config)
    → (resolve_audio_mode env_mode config ≡ pipe) ↔ Selects config.audio_mode env_mode
unfolding resolve_audio_mode
resolve_audio_mode-pipe_iff env_mode config =
    ground (arith, eq-IsPipe_iff (unwrap_or (or_else config.audio_mode env_mode) []))
