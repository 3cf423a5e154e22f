-- ===== src/Build/Rerun.antt =====
-- The build script of build.rs, run again.
use signal_call_tunnel.Base.{
  ◌≡◌, refl, sym, subst, ◌⊎◌, inl, inr, Bool, true, false, List, [], ◌∷◌, arith, Bool-cases,
}
use signal_call_tunnel.Build.{
  RingrtcPatch, patches, Applied, success, Tree, holds_marker, returned, apply_patch, apply_patches,
  main,
}

module _ (tree : Tree) where
  -- The marker of the patch is in its file.
  abbrev pub IsPresent : RingrtcPatch → tree.World → Type 0
  IsPresent p w = holds_marker (tree.read_to_string w p.marker_file) p.marker ≡ true

  abbrev pub AllPresent : List RingrtcPatch → tree.World → Type 0
  AllPresent [] w = Unit
  AllPresent (p ∷ ps) w = IsPresent p w × AllPresent ps w

  abbrev pub is_success : Applied → Bool
  is_success success = true
  is_success _ = false

  -- A successful application leaves the marker of the patch.
  abbrev pub Leaves : RingrtcPatch → Type 0
  Leaves p =
      (w : tree.World)
      → is_success (tree.git_apply p.patch_file w).0 ≡ true
      → IsPresent p (tree.git_apply p.patch_file w).1

  -- Applying the patches of a list, or failing to, does not remove the marker of `q`.
  abbrev pub KeptBy : List RingrtcPatch → RingrtcPatch → Type 0
  KeptBy [] q = Unit
  KeptBy (p ∷ ps) q =
      ((w : tree.World) → IsPresent q w → IsPresent q (tree.git_apply p.patch_file w).1)
      × KeptBy ps q

  -- Each patch leaves its marker, and the later ones keep it.
  abbrev pub Marks : List RingrtcPatch → Type 0
  Marks [] = Unit
  Marks (p ∷ ps) = Leaves p × KeptBy ps p × Marks ps

  -- Each patch of the list is applied in its turn, or is there already.
  abbrev pub Settles : List RingrtcPatch → tree.World → Type 0
  Settles [] w = Unit
  Settles (p ∷ ps) w =
      (((apply_patch tree p w).0 ≡ true) ⊎ IsPresent p w) × Settles ps (apply_patch tree p w).1

  apply_patch-present :
      (p : RingrtcPatch) (w : tree.World) → IsPresent p w → apply_patch tree p w ≡ (false, w)
  unfolding apply_patch
  apply_patch-present p w h = ground arith

  apply_patches-present :
      (ps : List RingrtcPatch) (w : tree.World)
      → AllPresent ps w
      → apply_patches tree ps w ≡ ([], w)
  unfolding apply_patches
  apply_patches-present [] w h = refl
  apply_patches-present (p ∷ ps) w h =
      rw (apply_patch-present p w h.0, apply_patches-present ps w h.1)

  apply_patch-keeps :
      (p q : RingrtcPatch) (w : tree.World)
      → ((v : tree.World) → IsPresent q v → IsPresent q (tree.git_apply p.patch_file v).1)
      → IsPresent q w
      → IsPresent q (apply_patch tree p w).1
  unfolding apply_patch
  apply_patch-keeps p q w k h = ground (arith, k w h)

  apply_patches-keeps :
      (ps : List RingrtcPatch) (q : RingrtcPatch) (w : tree.World)
      → KeptBy ps q
      → IsPresent q w
      → IsPresent q (apply_patches tree ps w).1
  unfolding apply_patches
  apply_patches-keeps [] q w k h = h
  apply_patches-keeps (p ∷ ps) q w k h =
      apply_patches-keeps ps q (apply_patch tree p w).1 k.1 (apply_patch-keeps p q w k.0 h)

  apply_patch-settled :
      (p : RingrtcPatch) (w : tree.World)
      → Leaves p
      → ((apply_patch tree p w).0 ≡ true) ⊎ IsPresent p w
      → IsPresent p (apply_patch tree p w).1
  unfolding apply_patch
  apply_patch-settled p w l (inl newly) = ground (arith, l w)
  apply_patch-settled p w l (inr present) = ground arith

  apply_patches-AllPresent :
      (ps : List RingrtcPatch) (w : tree.World)
      → Marks ps
      → Settles ps w
      → AllPresent ps (apply_patches tree ps w).1
  unfolding apply_patches
  apply_patches-AllPresent [] w m s = tt
  apply_patches-AllPresent (p ∷ ps) w m s = (
    apply_patches-keeps ps p (apply_patch tree p w).1 m.1 (apply_patch-settled p w m.0 s.0),
    apply_patches-AllPresent ps (apply_patch tree p w).1 m.2 s.1,
  )

  main-present : (w : tree.World) → AllPresent patches w → main tree w ≡ (returned, w)
  unfolding main
  main-present w h = elim (Bool-cases (tree.ringrtc_resolves w)) [
    | inl e ↦ rw (e, apply_patches-present patches w h)
    | inr e ↦ rw e
  ]

  main-unresolved : (w : tree.World) → tree.ringrtc_resolves w ≡ false → main tree w ≡ (returned, w)
  unfolding main
  main-unresolved w e = rw e

  main-world :
      (w : tree.World)
      → tree.ringrtc_resolves w ≡ true
      → (main tree w).1 ≡ (apply_patches tree patches w).1
  unfolding main
  main-world w e = rw e

  -- If each patch leaves its marker, the later ones keep it, and each is applied in its turn or
  -- there already, a second run of the build script applies none, changes nothing, and does not
  -- stop the build.
  pub main-main :
      (w : tree.World)
      → Marks patches
      → Settles patches w
      → main tree (main tree w).1 ≡ (returned, (main tree w).1)
  main-main w m s = elim (Bool-cases (tree.ringrtc_resolves w)) [
    | inl e ↦
        main-present (main tree w).1 (
          subst (AllPresent patches) (sym (main-world w e))
            (apply_patches-AllPresent patches w m s))
    | inr e ↦ rw (main-unresolved w e) (main-unresolved w e)
  ]
