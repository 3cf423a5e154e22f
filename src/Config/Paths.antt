-- ===== src/Config/Paths.antt =====
-- The socket path of config.rs and the call that it names.
use mathlib.Core.List.{append_cancel_left, append_cancel_right}
use signal_call_tunnel.Base.{
  ℕ, ◌≡◌, refl, ◌∙◌, sym, ap, append_assoc, false, [], ◌∷◌, ◌++◌, Option, Text, codes, unwrap_or,
  decimal, decimal_inj, if◌then◌else◌, Bool-cases, inl, inr,
}
use signal_call_tunnel.Config.{
  Config, join, ends_with_slash, starts_with_slash, socket_file, pipe_socket_path,
}

socket_file_inj : (a b : ℕ) → socket_file a ≡ socket_file b → a ≡ b
unfolding socket_file
socket_file_inj a b h = decimal_inj a b (
    append_cancel_right (decimal a) (decimal b) (codes ".sock")
      (append_cancel_left (codes "signal-call-") _ _ h))

-- A directory as a prefix of its entries' paths.
abbrev pub prefix_of : Text → Text
prefix_of [] = []
prefix_of (c ∷ dir) = if ends_with_slash (c ∷ dir) then c ∷ dir else c ∷ dir ++ b'/' ∷ []

join_relative : (dir f : Text) → starts_with_slash f ≡ false → join dir f ≡ prefix_of dir ++ f
unfolding join
join_relative [] f h = rw h
join_relative (c ∷ dir) f h = elim (Bool-cases (ends_with_slash (c ∷ dir))) [
  | inl e ↦ rw (h, e)
  | inr e ↦ rw (h, e) (ap (λ l. c ∷ l) (sym (append_assoc dir (b'/' ∷ []) f)))
]

join_inj :
    (dir f g : Text)
    → starts_with_slash f ≡ false
    → starts_with_slash g ≡ false
    → join dir f ≡ join dir g
    → f ≡ g
join_inj dir f g hf hg h =
    append_cancel_left (prefix_of dir) f g
      (sym (join_relative dir f hf) ∙ h ∙ join_relative dir g hg)

-- In one environment, calls whose sockets have the same path have the same id.
pub pipe_socket_path_inj :
    (env_dir : Option Text) (temp_dir : Text) (a b : Config)
    → pipe_socket_path env_dir temp_dir a ≡ pipe_socket_path env_dir temp_dir b
    → a.call_id ≡ b.call_id
unfolding pipe_socket_path
pipe_socket_path_inj env_dir temp_dir a b h = socket_file_inj a.call_id b.call_id (
    join_inj (unwrap_or env_dir temp_dir) (socket_file a.call_id) (socket_file b.call_id) refl refl
      h)
