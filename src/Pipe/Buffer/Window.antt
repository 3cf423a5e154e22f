-- ===== src/Pipe/Buffer/Window.antt =====
-- What `take_window` of pipe_audio.rs returns and leaves.
use signal_call_tunnel.Base.{
  ℕ, zero, suc, ◌+◌, ◌*◌, ◌/◌, min, ◌≤◌, ◌≡◌, refl, ap, List, [], ◌∷◌, ◌++◌, append_assoc, some, ℤ,
  pos, arith, length, take, drop, replicate, length-append, length-take, length-replicate,
  take-length_append, drop-length_append, ◌∙◌, get_elem?-append_right, set-append_length,
}
use signal_call_tunnel.Pipe.Pcm.{webrtc_window, from_le_bytes, encode, decode}
use signal_call_tunnel.Pipe.Pcm.RoundTrip.{AllI16, decode-encode, length-encode}
use signal_call_tunnel.Pipe.Buffer.{fill_samples, take_window}

-- The loop from a position: the bytes `read` and the samples `done` lie behind it.
fill_samples_from :
    (k i : ℕ) (read bytes : List ℕ) (done samples : List ℤ)
    → length read ≡ i * 2
    → length done ≡ i
    → k * 2 ≤ length bytes
    → k ≤ length samples
    → fill_samples k i (read ++ bytes) (done ++ samples)
      ≡ some (done ++ (take k (decode bytes) ++ drop k samples))
unfolding fill_samples decode
fill_samples_from zero i read bytes done samples hr hd hb hs = refl
fill_samples_from (suc k) i read [] done samples hr hd hb hs = absurd (omega arith)
fill_samples_from (suc k) i read (lo ∷ []) done samples hr hd hb hs = absurd (omega arith)
fill_samples_from (suc k) i read (lo ∷ hi ∷ bytes) done [] hr hd hb hs = absurd (omega arith)
fill_samples_from (suc k) i read (lo ∷ hi ∷ bytes) done (s ∷ samples) hr hd hb hs =
    let v : ℤ = from_le_bytes lo hi in
    rw (
      get_elem?-append_right read (lo ∷ hi ∷ bytes) (i * 2) 0 (omega arith),
      get_elem?-append_right read (lo ∷ hi ∷ bytes) (i * 2 + 1) 1 (omega arith),
      set-append_length done s v samples i hd,
      ← append_assoc read (lo ∷ hi ∷ []) bytes,
      ← append_assoc done (v ∷ []) samples,
      fill_samples_from k (i + 1) (read ++ lo ∷ hi ∷ []) bytes (done ++ v ∷ []) samples
          (omega (arith, length-append read (lo ∷ hi ∷ [])))
          (omega (arith, length-append done (v ∷ []))) (omega arith) (omega arith),
      append_assoc done (v ∷ []) (take k (decode bytes) ++ drop k samples),
    )

length-decode : (bytes : List ℕ) → length (decode bytes) ≡ length bytes / 2
unfolding decode
length-decode [] = refl
length-decode (lo ∷ []) = refl
length-decode (lo ∷ hi ∷ bytes) = omega (arith, length-decode bytes)

-- The window that the peer's bytes stand for: their samples, then silence, cut to the size.
abbrev pub window_of : List ℕ → List ℤ
window_of buf = take webrtc_window (decode buf ++ replicate webrtc_window (pos 0))

abbrev pub available : List ℕ → ℕ
available buf = min (length buf / 2) webrtc_window

take-replicate {ℓ} : {A : Type ℓ} (n m : ℕ) (a : A) → n ≤ m → take n (replicate m a) ≡ replicate n a
unfolding replicate
take-replicate zero m a h = refl
take-replicate (suc n) zero a h = absurd (omega arith)
take-replicate (suc n) (suc m) a h = ap (λ l. a ∷ l) (take-replicate n m a (omega arith))

-- A list padded and cut to `n` is what of it fits, before the padding that is left.
take-append_replicate {ℓ} :
    {A : Type ℓ} (c n m : ℕ) (xs : List A) (a : A)
    → n ≤ m
    → c ≡ min (length xs) n
    → take n (xs ++ replicate m a) ≡ take c xs ++ drop c (replicate n a)
unfolding replicate
take-append_replicate zero n m [] a h e = take-replicate n m a h
take-append_replicate zero zero m (x ∷ xs) a h e = refl
take-append_replicate zero (suc n) m (x ∷ xs) a h e = absurd (omega arith)
take-append_replicate (suc c) n m [] a h e = absurd (omega arith)
take-append_replicate (suc c) zero m (x ∷ xs) a h e = absurd (omega arith)
take-append_replicate (suc c) (suc n) m (x ∷ xs) a h e =
    ap (λ l. x ∷ l) (take-append_replicate c n m xs a (omega arith) (omega arith))

-- `take_window` never reads out of range, returns the window of the buffer, and leaves the rest.
pub take_window_lem :
    (buf : List ℕ) → take_window buf ≡ some (window_of buf, drop (available buf * 2) buf)
unfolding take_window
take_window_lem buf = rw (
  fill_samples_from (available buf) 0 [] buf [] (replicate webrtc_window (pos 0)) refl refl
      (omega arith) (omega (arith, length-replicate webrtc_window (pos 0))),
  take-append_replicate (available buf) webrtc_window webrtc_window (decode buf) (pos 0)
      (omega arith) (omega (arith, length-decode buf)),
)

pub length-window_of : (buf : List ℕ) → length (window_of buf) ≡ webrtc_window
length-window_of buf = omega (
  arith,
  length-take webrtc_window (decode buf ++ replicate webrtc_window (pos 0)),
  length-append (decode buf) (replicate webrtc_window (pos 0)),
  length-replicate webrtc_window (pos 0),
)

take-padded {ℓ} : {A : Type ℓ} (n : ℕ) (xs ys : List A) → length xs ≡ n → take n (xs ++ ys) ≡ xs
take-padded n xs ys h = rw (← h) (take-length_append xs ys)

drop-exact {ℓ} : {A : Type ℓ} (n : ℕ) (xs ys : List A) → length xs ≡ n → drop n (xs ++ ys) ≡ ys
drop-exact n xs ys h = rw (← h) (drop-length_append xs ys)

available-full : (buf : List ℕ) → webrtc_window * 2 ≤ length buf → available buf ≡ webrtc_window
available-full buf h = omega arith

-- If a window of samples of 16 bits is at the front of the buffer, encoded, `take_window` returns
-- it sample for sample, and the bytes behind it stay.
pub take_window-encode :
    (play : List ℤ) (rest : List ℕ)
    → AllI16 play
    → length play ≡ webrtc_window
    → take_window (encode play ++ rest) ≡ some (play, rest)
take_window-encode play rest h n =
    let full : available (encode play ++ rest) ≡ webrtc_window =
      available-full (encode play ++ rest)
        (omega (arith, length-append (encode play) rest, length-encode play)) in
    take_window_lem (encode play ++ rest)
    ∙ rw (
      full,
      decode-encode play rest h,
      append_assoc,
      take-padded webrtc_window play (decode rest ++ replicate webrtc_window (pos 0)) n,
      drop-exact (webrtc_window * 2) (encode play) rest (omega (arith, length-encode play)),
    )

-- A window does not need more than the samples that it takes.
cut-window :
    (c n : ℕ) (buf : List ℕ) (more : List ℤ)
    → c ≡ min (length buf / 2) n
    → take n (decode (take (c * 2) buf) ++ more) ≡ take n (decode buf ++ more)
unfolding decode
cut-window zero zero buf more h = refl
cut-window zero (suc n) [] more h = refl
cut-window zero (suc n) (lo ∷ []) more h = refl
cut-window zero (suc n) (lo ∷ hi ∷ buf) more h = absurd (omega arith)
cut-window (suc c) n [] more h = absurd (omega arith)
cut-window (suc c) n (lo ∷ []) more h = absurd (omega arith)
cut-window (suc c) zero (lo ∷ hi ∷ buf) more h = absurd (omega arith)
cut-window (suc c) (suc n) (lo ∷ hi ∷ buf) more h =
    let two : suc c * 2 ≡ suc (suc (c * 2)) = omega arith in
    rw two (ap (λ l. from_le_bytes lo hi ∷ l) (cut-window c n buf more (omega arith)))

pub window_of-take : (buf : List ℕ) → window_of (take (available buf * 2) buf) ≡ window_of buf
window_of-take buf =
    cut-window (available buf) webrtc_window buf (replicate webrtc_window (pos 0)) refl
