-- ===== src/Build/Tests.antt =====
-- build.rs at a concrete RingRTC.
use signal_call_tunnel.Base.{
  ◌≡◌, refl, inl, inr, Bool, true, false, [], ◌∷◌, ◌++◌, some, Text, codes, text_eq, if◌then◌else◌,
}
use signal_call_tunnel.Build.{
  patches, Applied, success, Tree, returned, panicked, apply_patch, apply_patches, contains, main,
}
use signal_call_tunnel.Build.Rerun.{Marks, Settles, main-main}

-- The text of the patched file: which of the two patches are in.
abbrev content : Bool × Bool → Text
content (vpio, custom) =
    (if vpio then codes "RINGRTC_NO_VOICE_PROCESSING " else [])
    ++ (if custom then codes "CustomAudioDevice" else [])

abbrev git_apply : Text → Bool × Bool → Applied × (Bool × Bool)
git_apply file (vpio, custom) =
    if text_eq file (codes "patches/ringrtc-disable-vpio.patch")
    then (success, (true, custom))
    else (success, (vpio, true))

abbrev tree : Tree
tree = record {
  World = Bool × Bool;
  ringrtc_resolves = λ w. true;
  exists = λ w file. true;
  resolves = λ w file. true;
  read_to_string = λ w file. some (content w);
  git_apply = git_apply;
}

main_test : main tree (false, false) ≡ (
  panicked (
      codes "VPIO-disable patch for virtual audio support"
      ∷ codes "custom audio backend extension point"
      ∷ []),
  (true, true),
)
unfolding main apply_patches apply_patch text_eq contains
main_test = refl

vpio_left :
    (w : Bool × Bool) → contains (content (true, w.1)) (codes "RINGRTC_NO_VOICE_PROCESSING") ≡ true
unfolding contains
vpio_left (vpio, true) = refl
vpio_left (vpio, false) = refl

custom_left : (w : Bool × Bool) → contains (content (w.0, true)) (codes "CustomAudioDevice") ≡ true
unfolding contains
custom_left (true, custom) = refl
custom_left (false, custom) = refl

vpio_kept :
    (w : Bool × Bool)
    → contains (content w) (codes "RINGRTC_NO_VOICE_PROCESSING") ≡ true
    → contains (content (w.0, true)) (codes "RINGRTC_NO_VOICE_PROCESSING") ≡ true
unfolding contains
vpio_kept (true, custom) h = refl
vpio_kept (false, true) h = h
vpio_kept (false, false) h = cc h

tree-Marks : Marks tree patches
unfolding text_eq
tree-Marks = (λ w h. vpio_left w, (λ w h. vpio_kept w h, tt), (λ w h. custom_left w, tt, tt))

tree-Settles : Settles tree patches (false, true)
unfolding text_eq contains apply_patch
tree-Settles = (inl refl, (inr refl, tt))

main-main_example : main tree (main tree (false, true)).1 ≡ (returned, (main tree (false, true)).1)
main-main_example = main-main tree (false, true) tree-Marks tree-Settles
