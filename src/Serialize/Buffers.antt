-- ===== src/Serialize/Buffers.antt =====
-- `pack_buffers`, and the loops of `unpack_buffers` and `unpack_and_deserialize`.
use mathlib.Core.List.{append_assoc, append-nil}
use func_x.Prelude.{
  ℕ, zero, suc, ◌-◌, ◌≤◌, ◌<◌, ◌==◌, ◌≡◌, refl, ◌∙◌, sym, ap, false, List, [], ◌∷◌, ◌++◌, All,
  length, arith, take_left, drop_left, length-drop, Option-cases, inl, inr,
}
use func_x.Prelude.Int.{ℤ, pos, negsuc}
use func_x.Prelude.Text.{
  Text, split_once, slice_from, int, IsDigit, decimal-IsDigit, int-decimal, split_once-append,
  split_once-shorter,
}
use func_x.Prelude.Decimal.{decimal}
use func_x.Prelude.Python.{Result, return, Result-cases}
use func_x.Prelude.Results.{◌>>=◌}
use func_x.Serialize.{pack_loop, pack_buffers, next_buffer, unpack_loop, unpack_buffers}

-- The format: each buffer behind its length and a line break.
pub framed : List Text → Text
framed [] = []
framed (b ∷ bs) = decimal (length b) ++ b'\n' ∷ (b ++ framed bs)

digits-no_break : (s : Text) → All IsDigit s → All (λ c. (c == b'\n') ≡ false) s
unfolding IsDigit
digits-no_break [] h = tt
digits-no_break (c ∷ cs) h = (ground (arith, h.0), digits-no_break cs h.1)

next_buffer-framed :
    (b rest : Text) → next_buffer (decimal (length b) ++ b'\n' ∷ (b ++ rest)) ≡ return (b, rest)
unfolding next_buffer
next_buffer-framed b rest =
    rw
      (
        split_once-append b'\n' (decimal (length b)) (b ++ rest)
            (digits-no_break (decimal (length b)) (decimal-IsDigit (length b))),
        int-decimal (length b),
        take_left b rest,
        drop_left b rest,
        next_buffer,
      )
      refl

slice_from-le : (i : ℤ) (s : Text) → length (slice_from i s) ≤ length s
slice_from-le (pos n) s = omega (arith, length-drop n s)
slice_from-le (negsuc n) s = omega (arith, length-drop (length s - suc n) s)

-- Each round shortens the text, also where the length is wrong or negative.
next_buffer-shorter :
    (s current rest : Text) → next_buffer s ≡ return (current, rest) → length rest < length s
unfolding next_buffer
next_buffer-shorter s current rest h = elim (Option-cases (split_once b'\n' s)) [
  | inl e ↦ absurd (ground arith)
  | inr ((before, buf), e) ↦ elim (Result-cases (int before)) [
    | inr (x, e') ↦ absurd (ground arith)
    | inl (i, e') ↦
        let same : rest ≡ slice_from i buf = ground arith in
        let short = split_once-shorter b'\n' s before buf e in
        let cut = slice_from-le i buf in ground arith
  ]
]

module _ {ℓ} {A : Type ℓ} (each : Text → Result A) where
  -- Fuel beyond the length changes nothing.
  unpack_loop-fuel :
      (n m : ℕ) (s : Text) (unpacked : List A)
      → length s ≤ n
      → length s ≤ m
      → unpack_loop each n s unpacked ≡ unpack_loop each m s unpacked
  unfolding unpack_loop
  unpack_loop-fuel n m [] unpacked h k = refl
  unpack_loop-fuel zero m (c ∷ cs) unpacked h k = absurd (omega arith)
  unpack_loop-fuel (suc n) zero (c ∷ cs) unpacked h k = absurd (omega arith)
  unpack_loop-fuel (suc n) (suc m) (c ∷ cs) unpacked h k =
      elim (Result-cases (next_buffer (c ∷ cs))) [
        | inr (e, r) ↦ rw r refl
        | inl ((current, rest), r) ↦
            let short = next_buffer-shorter (c ∷ cs) current rest r in
            elim (Result-cases (each current)) [
              | inr (e, r') ↦ rw (r, r') refl
              | inl (a, r') ↦
                  rw (r, r')
                    (unpack_loop-fuel n m rest (unpacked ++ a ∷ []) (omega arith) (omega arith))
            ]
      ]

  -- The buffers' contents one after another; the first exception ends it.
  unfoldable pub in_turn : List Text → Result (List A)
  in_turn [] = return []
  in_turn (b ∷ bs) = do a ← each b; rest ← in_turn bs; return (a ∷ rest)

  unpack_loop_round :
      (n : ℕ) (s current rest : Text) (unpacked : List A)
      → next_buffer s ≡ return (current, rest)
      → unpack_loop each (suc n) s unpacked
        ≡ (do a ← each current; unpack_loop each n rest (unpacked ++ a ∷ []))
  unfolding unpack_loop
  unpack_loop_round n [] current rest unpacked h =
      absurd (omega (arith, next_buffer-shorter [] current rest h))
  unpack_loop_round n (c ∷ cs) current rest unpacked h = rw h refl

  -- The loop ends on every text, well formed or not: with the length of the text as fuel it obeys
  -- the equation of the `while` loop, in which no fuel occurs but the length of what is left.
  pub unpack_loop_ends :
      (c : ℕ) (cs : Text) (unpacked : List A)
      → unpack_loop each (length (c ∷ cs)) (c ∷ cs) unpacked ≡ (do
        (current, rest) ← next_buffer (c ∷ cs)
        a ← each current
        unpack_loop each (length rest) rest (unpacked ++ a ∷ []))
  unfolding unpack_loop
  unpack_loop_ends c cs unpacked = elim (Result-cases (next_buffer (c ∷ cs))) [
    | inr (e, r) ↦ rw (r, unpack_loop) refl
    | inl ((current, rest), r) ↦
        let short = next_buffer-shorter (c ∷ cs) current rest r in
        elim (Result-cases (each current)) [
          | inr (e, r') ↦
              rw (unpack_loop_round (length cs) (c ∷ cs) current rest unpacked r, r, r') refl
          | inl (a, r') ↦
              rw (unpack_loop_round (length cs) (c ∷ cs) current rest unpacked r, r, r')
                (unpack_loop-fuel (length cs) (length rest) rest (unpacked ++ a ∷ []) (omega arith)
                  (omega arith))
        ]
  ]

  framed_round :
      (n : ℕ) (b rest : Text) (unpacked : List A)
      → length (decimal (length b) ++ b'\n' ∷ (b ++ rest)) ≤ n
      → (m : ℕ) × (length rest ≤ m)
        × (unpack_loop each n (decimal (length b) ++ b'\n' ∷ (b ++ rest)) unpacked
            ≡ (do a ← each b; unpack_loop each m rest (unpacked ++ a ∷ [])))
  framed_round zero b rest unpacked h =
      absurd (omega (arith, h, next_buffer-shorter _ b rest (next_buffer-framed b rest)))
  framed_round (suc n) b rest unpacked h = (
    n,
    omega (arith, h, next_buffer-shorter _ b rest (next_buffer-framed b rest)),
    unpack_loop_round n _ b rest unpacked (next_buffer-framed b rest),
  )

  -- What a loop adds to the list that it starts with.
  abbrev added : List A → Result (List A) → Result (List A)
  added unpacked r = r >>= λ xs. return (unpacked ++ xs)

  added-in_turn :
      (b : Text) (bs : List Text) (unpacked : List A)
      → (each b >>= λ a. added (unpacked ++ a ∷ []) (in_turn bs))
        ≡ added unpacked (in_turn (b ∷ bs))
  unfolding in_turn
  added-in_turn b bs unpacked = elim (Result-cases (each b)) [
    | inr (e, r) ↦ rw r refl
    | inl (a, r) ↦ elim (Result-cases (in_turn bs)) [
      | inr (e, r') ↦ rw (r, r') refl
      | inl (xs, r') ↦ rw (r, r', append_assoc unpacked (a ∷ []) xs) refl
    ]
  ]

  pub unpack_loop-framed :
      (n : ℕ) (bs : List Text) (unpacked : List A)
      → length (framed bs) ≤ n
      → unpack_loop each n (framed bs) unpacked ≡ added unpacked (in_turn bs)
  unfolding framed unpack_loop in_turn
  unpack_loop-framed n [] unpacked h = rw (append-nil unpacked, unpack_loop, in_turn) refl
  unpack_loop-framed n (b ∷ bs) unpacked h =
      let (m, fits, round) = framed_round n b (framed bs) unpacked h in
      let rest = λ (a : A). unpack_loop-framed m bs (unpacked ++ a ∷ []) fits in
      round ∙ ap (λ f. each b >>= f) (λ i a. rest a i) ∙ added-in_turn b bs unpacked

pack_loop-framed : (bs : List Text) (packed : Text) → pack_loop bs packed ≡ packed ++ framed bs
unfolding pack_loop framed
pack_loop-framed [] packed = sym (append-nil packed)
pack_loop-framed (b ∷ bs) packed =
    pack_loop-framed bs _
    ∙ append_assoc packed _ (framed bs)
    ∙ ap (◌++◌ packed) (
        append_assoc (decimal (length b) ++ b'\n' ∷ []) b (framed bs)
        ∙ append_assoc (decimal (length b)) (b'\n' ∷ []) (b ++ framed bs))

pub pack_buffers-framed : (bs : List Text) → pack_buffers bs ≡ framed bs
unfolding pack_buffers
pack_buffers-framed bs = pack_loop-framed bs []

in_turn_same : (bs : List Text) → in_turn (λ s. return s) bs ≡ return bs
unfolding in_turn
in_turn_same [] = refl
in_turn_same (b ∷ bs) = rw (in_turn_same bs) refl

-- Buffers that are packed and unpacked again are the same, whatever texts they are: also empty
-- ones, and ones with line breaks or digits in them.
pub unpack_buffers-pack_buffers : (bs : List Text) → unpack_buffers (pack_buffers bs) ≡ return bs
unfolding unpack_buffers
unpack_buffers-pack_buffers bs =
    rw
      (
        pack_buffers-framed bs,
        unpack_loop-framed (λ s. return s) (length (framed bs)) bs [] (omega arith),
        in_turn_same bs,
      )
      refl
