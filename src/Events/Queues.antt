-- ===== src/Events/Queues.antt =====
-- Queues, one by one: what a publication puts into each of them.
use qsmith.Prelude.{
  ℕ, zero, suc, ◌+◌, ◌<◌, ◌≡◌, refl, sym, ◌∙◌, true, false, some, Bool-cases, inl, inr, List, [],
  ◌∷◌, ◌++◌, length, get_elem?, eqb, ltb, arith, length-append, eq_of_eqb, subst, if◌then◌else◌,
}
use qsmith.Events.Bounds.{AreBelow}
use qsmith.Events.{append_bounded, put_nowait, put_at, deliver, event_history_size, queue_size}

-- How often a queue stands among the subscribers.
abbrev pub count : ℕ → List ℕ → ℕ
count n [] = 0
count n (m ∷ ms) = if eqb m n then suc (count n ms) else count n ms

pub count-AreBelow : (n : ℕ) (ms : List ℕ) → AreBelow n ms → count n ms ≡ 0
count-AreBelow n [] _ = refl
count-AreBelow n (m ∷ ms) (p, ps) = ground (arith, count-AreBelow n ms ps)

pub count-append : (n : ℕ) (ms ks : List ℕ) → count n (ms ++ ks) ≡ count n ms + count n ks
count-append n [] ks = omega arith
count-append n (m ∷ ms) ks = ground (arith, count-append n ms ks)

module _ {F : Type 0} where
  put_at-other :
      (frame : F) (m n : ℕ) (qs : List (List F))
      → eqb m n ≡ false
      → get_elem? (put_at frame m qs) n ≡ get_elem? qs n
  unfolding put_at
  put_at-other frame m n [] ne = refl
  put_at-other frame zero zero (q ∷ qs) ne = ground arith
  put_at-other frame zero (suc n) (q ∷ qs) ne = refl
  put_at-other frame (suc m) zero (q ∷ qs) ne = refl
  put_at-other frame (suc m) (suc n) (q ∷ qs) ne = put_at-other frame m n qs (ground arith)

  put_at_self :
      (frame : F) (n : ℕ) (qs : List (List F)) (q : List F)
      → get_elem? qs n ≡ some q
      → get_elem? (put_at frame n qs) n ≡ some (put_nowait frame q)
  unfolding put_at
  put_at_self frame n [] q e = ground arith
  put_at_self frame zero (p ∷ qs) q e = ground arith
  put_at_self frame (suc n) (p ∷ qs) q e = put_at_self frame n qs q e

  pub deliver-absent :
      (frame : F) (n : ℕ) (ms : List ℕ) (qs : List (List F)) (q : List F)
      → count n ms ≡ 0
      → get_elem? qs n ≡ some q
      → get_elem? (deliver frame ms qs) n ≡ some q
  unfolding deliver
  deliver-absent frame n [] qs q c e = e
  deliver-absent frame n (m ∷ ms) qs q c e = elim (Bool-cases (eqb m n)) [
    | inl same ↦ absurd (ground arith)
    | inr other ↦
        deliver-absent frame n ms (put_at frame m qs) q (rw other at c)
          (put_at-other frame m n qs other ∙ e)
  ]

  pub deliver-once :
      (frame : F) (n : ℕ) (ms : List ℕ) (qs : List (List F)) (q : List F)
      → count n ms ≡ 1
      → get_elem? qs n ≡ some q
      → get_elem? (deliver frame ms qs) n ≡ some (put_nowait frame q)
  unfolding deliver
  deliver-once frame n [] qs q c e = absurd (omega arith)
  deliver-once frame n (m ∷ ms) qs q c e = elim (Bool-cases (eqb m n)) [
    | inl same ↦
        let here : m ≡ n = eq_of_eqb m n same in
        deliver-absent frame n ms (put_at frame m qs) (put_nowait frame q) (ground arith) (
          subst (λ k. get_elem? (put_at frame k qs) n ≡ some (put_nowait frame q)) (sym here)
            (put_at_self frame n qs q e))
    | inr other ↦
        deliver-once frame n ms (put_at frame m qs) q (rw other at c)
          (put_at-other frame m n qs other ∙ e)
  ]

  pub append_bounded-fits :
      (frames : List F) (frame : F)
      → length frames < event_history_size
      → append_bounded frames frame ≡ frames ++ (frame ∷ [])
  unfolding append_bounded
  append_bounded-fits frames frame h =
      let fits : ltb event_history_size (length (frames ++ (frame ∷ []))) ≡ false =
        ground (arith, length-append frames (frame ∷ [])) in
      rw fits

  pub put_nowait-fits :
      (frame : F) (q : List F) → length q < queue_size → put_nowait frame q ≡ q ++ (frame ∷ [])
  unfolding put_nowait
  put_nowait-fits frame q h = let room : ltb (length q) queue_size ≡ true = ground arith in rw room
