-- ===== src/Build.antt =====
-- signal-call-tunnel/build.rs: the patches that the build script applies to RingRTC.
pub mod Rerun
mod Tests
use signal_call_tunnel.Base.{
  ℕ, Bool, true, false, ◌&&◌, ◌||◌, ◌≡◌, List, [], ◌∷◌, Option, none, some, Text, codes, ◌==◌,
  if◌then◌else◌,
}

pub record RingrtcPatch : Type 0 where
  pub patch_file : Text
  pub marker_file : Text
  pub marker : Text
  pub description : Text

-- `PATCHES`, in order.
abbrev pub patches : List RingrtcPatch
patches =
    record {
      patch_file = codes "patches/ringrtc-disable-vpio.patch";
      marker_file = codes "src/rust/src/webrtc/audio_device_module.rs";
      marker = codes "RINGRTC_NO_VOICE_PROCESSING";
      description = codes "VPIO-disable patch for virtual audio support";
    }
    ∷ record {
      patch_file = codes "patches/ringrtc-custom-audio-backend.patch";
      marker_file = codes "src/rust/src/webrtc/audio_device_module.rs";
      marker = codes "CustomAudioDevice";
      description = codes "custom audio backend extension point";
    }
    ∷ []

-- What `git apply` did: it exited with success, with another status, or could not be run.
pub data Applied : Type 0 where
  success failure not_run : Applied

-- The file system and git. Files of the crate and of RingRTC are named by their relative paths.
pub record Tree : Type 1 where
  pub World : Type 0
  pub ringrtc_resolves : World → Bool
  pub exists : World → Text → Bool
  pub resolves : World → Text → Bool
  pub read_to_string : World → Text → Option Text
  pub git_apply : Text → World → Applied × World

abbrev pub starts_with : Text → Text → Bool
starts_with s [] = true
starts_with [] (c ∷ t) = false
starts_with (d ∷ s) (c ∷ t) = d == c && starts_with s t

-- `str::contains`.
unfoldable pub contains : Text → Text → Bool
contains [] t = starts_with [] t
contains (c ∷ s) t = starts_with (c ∷ s) t || contains s t

abbrev pub holds_marker : Option Text → Text → Bool
holds_marker none marker = false
holds_marker (some content) marker = contains content marker

-- Whether a run of the build script ends the build, and with which descriptions.
pub data Run : Type 0 where
  returned : Run
  panicked : List Text → Run

module _ (tree : Tree) where
  abbrev applied : Applied × tree.World → Bool × tree.World
  applied (success, w) = (true, w)
  applied (failure, w) = (false, w)
  applied (not_run, w) = (false, w)

  unfoldable pub apply_patch : RingrtcPatch → tree.World → Bool × tree.World
  apply_patch patch w =
      if tree.exists w patch.patch_file
      then (if holds_marker (tree.read_to_string w patch.marker_file) patch.marker
          then (false, w)
          else if tree.resolves w patch.patch_file
          then applied (tree.git_apply patch.patch_file w)
          else (false, w))
      else (false, w)

  -- The loop over the patches: the descriptions of those newly applied.
  unfoldable pub apply_patches : List RingrtcPatch → tree.World → List Text × tree.World
  apply_patches [] w = ([], w)
  apply_patches (patch ∷ rest) w =
      let (newly, w1) = apply_patch patch w in
      let (names, w2) = apply_patches rest w1 in
      (if newly then patch.description ∷ names else names, w2)

  abbrev conclude : List Text → Run
  conclude [] = returned
  conclude (name ∷ names) = panicked (name ∷ names)

  unfoldable pub main : tree.World → Run × tree.World
  main w =
      if tree.ringrtc_resolves w
      then (let (names, w') = apply_patches patches w in (conclude names, w'))
      else (returned, w)
