-- ===== src/Pipe/Buffer/Thins.antt =====
-- What is left of a stream of bytes after `cap_buffer` of pipe_audio.rs has dropped from it again and
-- again.
use signal_call_tunnel.Base.{ℕ, ◌%◌, ◌≡◌, subst, List, [], ◌∷◌, ◌++◌, append_assoc, arith, length}
use signal_call_tunnel.Pipe.Buffer.Cap.{DropsPairs}

-- The first stream is the second without some pairs of neighbours, and in the same order.
pub data Thins : List ℕ → List ℕ → Type 0 where
  done : Thins [] []
  kept : {ks bs : List ℕ} (b : ℕ) → Thins ks bs → Thins (b ∷ ks) (b ∷ bs)
  dropped : {ks bs : List ℕ} (a b : ℕ) → Thins ks bs → Thins ks (a ∷ b ∷ bs)

pub Thins-refl : (bs : List ℕ) → Thins bs bs
Thins-refl [] = done
Thins-refl (b ∷ bs) = kept b (Thins-refl bs)

pub Thins-append : {ks bs : List ℕ} (more : List ℕ) → Thins ks bs → Thins (ks ++ more) (bs ++ more)
Thins-append more done = Thins-refl more
Thins-append more (kept b t) = kept b (Thins-append more t)
Thins-append more (dropped a b t) = dropped a b (Thins-append more t)

-- A byte before the stream goes with its first byte.
Thins-odd : {b : ℕ} {ks bs : List ℕ} (a : ℕ) → Thins (b ∷ ks) bs → Thins ks (a ∷ bs)
Thins-odd a (kept b t) = dropped a b t
Thins-odd a (dropped c d t) = dropped a c (Thins-odd d t)

Thins-pair :
    (ks : List ℕ) (a b : ℕ) (ls bs : List ℕ) → Thins (ks ++ a ∷ b ∷ ls) bs → Thins (ks ++ ls) bs
Thins-pair [] a b ls [] t = elim t [ ]
Thins-pair (k ∷ ks) a b ls [] t = elim t [ ]
Thins-pair [] a b ls (c ∷ bs) (kept _ t) = Thins-odd c t
Thins-pair [] a b ls (c ∷ d ∷ bs) (dropped _ _ t) = dropped c d (Thins-pair [] a b ls bs t)
Thins-pair (k ∷ ks) a b ls (c ∷ bs) (kept _ t) = kept c (Thins-pair ks a b ls bs t)
Thins-pair (k ∷ ks) a b ls (c ∷ d ∷ bs) (dropped _ _ t) =
    dropped c d (Thins-pair (k ∷ ks) a b ls bs t)

Thins-pairs :
    (ks ds ls bs : List ℕ) → length ds % 2 ≡ 0 → Thins (ks ++ (ds ++ ls)) bs → Thins (ks ++ ls) bs
Thins-pairs ks [] ls bs even t = t
Thins-pairs ks (d ∷ []) ls bs even t = absurd (omega arith)
Thins-pairs ks (d ∷ e ∷ ds) ls bs even t =
    Thins-pairs ks ds ls bs (omega arith) (Thins-pair ks d e (ds ++ ls) bs t)

-- Behind a part that is gone already, more bytes are queued and the oldest are dropped.
pub Thins-DropsPairs :
    (gone queue rest whole more : List ℕ)
    → Thins (gone ++ queue) whole
    → DropsPairs rest (queue ++ more)
    → Thins (gone ++ rest) (whole ++ more)
Thins-DropsPairs gone queue rest whole more t d =
    Thins-pairs gone d.dropped rest (whole ++ more) d.even (
      subst (λ k. Thins (gone ++ k) (whole ++ more)) d.split
        (subst (λ k. Thins k (whole ++ more)) (append_assoc gone queue more) (Thins-append more t)))
