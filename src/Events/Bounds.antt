-- ===== src/Events/Bounds.antt =====
-- Histories and queues stay as short as the source says, and subscribers have queues that exist.
use qsmith.Prelude.{
  ℕ, zero, suc, ◌≤◌, ◌<◌, ◌≡◌, refl, ◌∙◌, Bool-cases, inl, inr, List, [], ◌∷◌, ◌++◌, length,
  get_elem?, set, eqb, ltb, All, arith, length-append,
}
use qsmith.Events.{
  append_bounded, put_nowait, put_at, deliver, list_or_empty, tail, remove_first,
  event_history_size, queue_size,
}

pub All-append :
    {B : Type 0} (P : B → Type 0) (xs ys : List B) → All P xs → All P ys → All P (xs ++ ys)
All-append P [] ys _ q = q
All-append P (x ∷ xs) ys (p, ps) q = (p, All-append P xs ys ps q)

module _ {A : Type 0} where
  length-tail : (xs : List A) → length (tail xs) ≤ length xs
  length-tail [] = omega arith
  length-tail (x ∷ xs) = omega arith

  pub length-append_bounded :
      (frames : List A) (frame : A)
      → length frames ≤ event_history_size
      → length (append_bounded frames frame) ≤ event_history_size
  unfolding append_bounded
  length-append_bounded [] frame h = omega arith
  length-append_bounded (x ∷ frames) frame h =
      elim (Bool-cases (ltb event_history_size (length ((x ∷ frames) ++ (frame ∷ []))))) [
        | inl over ↦ rw over (omega (arith, length-append frames (frame ∷ [])))
        | inr fits ↦ rw fits (ground (arith, fits))
      ]

  pub length-put_nowait :
      (frame : A) (queue : List A)
      → length queue ≤ queue_size
      → length (put_nowait frame queue) ≤ queue_size
  unfolding put_nowait
  length-put_nowait frame queue h = elim (Bool-cases (ltb (length queue) queue_size)) [
    | inl room ↦ rw room (ground (arith, length-append queue (frame ∷ [])))
    | inr full ↦ rw full h
  ]

  pub put_at-length :
      (frame : A) (n : ℕ) (qs : List (List A)) → length (put_at frame n qs) ≡ length qs
  unfolding put_at
  put_at-length frame n [] = refl
  put_at-length frame zero (q ∷ qs) = refl
  put_at-length frame (suc n) (q ∷ qs) = omega (arith, put_at-length frame n qs)

  pub deliver-length :
      (frame : A) (ns : List ℕ) (qs : List (List A)) → length (deliver frame ns qs) ≡ length qs
  unfolding deliver
  deliver-length frame [] qs = refl
  deliver-length frame (n ∷ ns) qs =
      deliver-length frame ns (put_at frame n qs) ∙ put_at-length frame n qs

  abbrev pub AreShort : List (List A) → Type 0
  AreShort qs = All (λ (q : List A). length q ≤ queue_size) qs

  put_at-AreShort :
      (frame : A) (n : ℕ) (qs : List (List A)) → AreShort qs → AreShort (put_at frame n qs)
  unfolding put_at
  put_at-AreShort frame n [] s = s
  put_at-AreShort frame zero (q ∷ qs) (p, ps) = (length-put_nowait frame q p, ps)
  put_at-AreShort frame (suc n) (q ∷ qs) (p, ps) = (p, put_at-AreShort frame n qs ps)

  pub deliver-AreShort :
      (frame : A) (ns : List ℕ) (qs : List (List A)) → AreShort qs → AreShort (deliver frame ns qs)
  unfolding deliver
  deliver-AreShort frame [] qs s = s
  deliver-AreShort frame (n ∷ ns) qs s = deliver-AreShort frame ns _ (put_at-AreShort frame n qs s)

  pub set-tail-AreShort :
      (qs : List (List A)) (n : ℕ)
      → AreShort qs
      → AreShort (set qs n (tail (list_or_empty (get_elem? qs n))))
  set-tail-AreShort [] n s = s
  set-tail-AreShort (q ∷ qs) zero (p, ps) = (omega (arith, length-tail q), ps)
  set-tail-AreShort (q ∷ qs) (suc n) (p, ps) = (p, set-tail-AreShort qs n ps)

-- The numbers are those of queues that there are.
abbrev pub AreBelow : ℕ → List ℕ → Type 0
AreBelow n ms = All (λ (m : ℕ). m < n) ms

pub AreBelow-later : (n k : ℕ) (ms : List ℕ) → n ≤ k → AreBelow n ms → AreBelow k ms
AreBelow-later n k [] h _ = tt
AreBelow-later n k (m ∷ ms) h (p, ps) = (omega arith, AreBelow-later n k ms h ps)

pub remove_first-AreBelow : (n k : ℕ) (ms : List ℕ) → AreBelow k ms → AreBelow k (remove_first n ms)
unfolding remove_first
remove_first-AreBelow n k [] _ = tt
remove_first-AreBelow n k (m ∷ ms) (p, ps) = elim (Bool-cases (eqb n m)) [
  | inl here ↦ rw here ps
  | inr there ↦ rw there (p, remove_first-AreBelow n k ms ps)
]
