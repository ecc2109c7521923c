-- ===== src/Serialize/Combined.antt =====
-- `CombinedCode`: a function is written by several strategies, and one that reads it back is enough.
use func_x.Prelude.{
  ℕ, suc, ◌==◌, ◌≡◌, ◌⊎◌, refl, ◌∙◌, ap, false, some, List, [], ◌∷◌, ◌++◌, All, arith, is_empty,
  inl, inr, take_left, drop_left,
}
use func_x.Prelude.Text.{Text, split_once}
use func_x.Prelude.Python.{Exc, return, raise, Result-cases}
use func_x.Serialize.{
  Python, Basic, dill_data_base64, dill_code_source, dill_code_text_inspect, pickle_code, dill_code,
  identifier, combined_identifier, chomp, chunk_strategies, join, split, pairs,
  get_multiple_payloads, find_strategy, encode, decode, serialize_basic, chunks, serialize_combined,
  try_payloads, deserialize_combined, deserialize,
}
use func_x.Serialize.Strategies.{deserialize_basic-append}

abbrev pub NoColon : Text → Type 0
NoColon s = All (λ c. (c == b':') ≡ false) s

split_last : (s : Text) → NoColon s → split s ≡ s ∷ []
unfolding split
split_last [] h = refl
split_last (c ∷ cs) h = rw (h.0, split_last cs h.1) refl

split-append : (s rest : Text) → NoColon s → split (s ++ b':' ∷ rest) ≡ s ∷ split rest
unfolding split
split-append [] rest h = ground arith
split-append (c ∷ cs) rest h = rw (h.0, split-append cs rest h.1) refl

-- Parts without the separator are found again.
split-join :
    (x : Text) (xs : List Text) → NoColon x → All NoColon xs → split (join (x ∷ xs)) ≡ x ∷ xs
unfolding join
split-join x [] h k = split_last x h
split-join x (y ∷ ys) h k = split-append x (join (y ∷ ys)) h ∙ ap (◌∷◌ x) (split-join y ys k.0 k.1)

module _ {V : Type 0} (py : Python V) (v : V) where
  -- The identifier and the encoded object, of each strategy that can write the object.
  payloads : List Basic → List (Text × Text)
  payloads [] = []
  payloads (s ∷ ss) = elim (encode py s v) [
    | raise e ↦ payloads ss
    | return x ↦ (identifier s, x) ∷ payloads ss
  ]

  abbrev flat : List (Text × Text) → List Text
  flat [] = []
  flat ((a, b) ∷ rest) = a ∷ b ∷ flat rest

  pairs-flat : (ps : List (Text × Text)) → pairs (flat ps) ≡ ps
  unfolding pairs
  pairs-flat [] = refl
  pairs-flat ((a, b) ∷ ps) = ap (◌∷◌ (a, b)) (pairs-flat ps)

  chunks-payloads : (ss : List Basic) → chunks py ss v ≡ flat (payloads ss)
  unfolding chunks payloads serialize_basic
  chunks-payloads [] = refl
  chunks-payloads (s ∷ ss) = elim (Result-cases (encode py s v)) [
    | inr (e, r) ↦ rw (r, chunks, payloads, serialize_basic) (chunks-payloads ss)
    | inl (x, r) ↦
        rw
          (
            r,
            take_left (identifier s) x,
            drop_left (identifier s) x,
            chunks-payloads ss,
            chunks,
            payloads,
            serialize_basic,
          )
          refl
  ]

  identifier-NoColon : (s : Basic) → NoColon (identifier s)
  unfolding identifier
  identifier-NoColon dill_data_base64 = (refl, (refl, (refl, tt)))
  identifier-NoColon dill_code_source = (refl, (refl, (refl, tt)))
  identifier-NoColon dill_code_text_inspect = (refl, (refl, (refl, tt)))
  identifier-NoColon pickle_code = (refl, (refl, (refl, tt)))
  identifier-NoColon dill_code = (refl, (refl, (refl, tt)))

  -- Some strategy of the list writes the object and reads it back.
  unfoldable pub Works : List Basic → Type 0
  Works [] = ⊥
  Works (s ∷ ss) = ((x : Text) × (encode py s v ≡ return x) × (decode py s x ≡ return v)) ⊎ Works ss

  -- What a strategy reads back from its own text is the object, or nothing.
  unfoldable pub Harmless : Basic → Type 0
  Harmless s =
      (x : Text)
      → encode py s v ≡ return x
      → (decode py s x ≡ return v) ⊎ ((e : Exc) × (decode py s x ≡ raise e))

  module _ (base64 : (s : Basic) (x : Text) → encode py s v ≡ return x → NoColon x) where
    flat-NoColon : (ss : List Basic) → All NoColon (flat (payloads ss))
    unfolding payloads
    flat-NoColon [] = tt
    flat-NoColon (s ∷ ss) = elim (Result-cases (encode py s v)) [
      | inr (e, r) ↦ rw (r, payloads) (flat-NoColon ss)
      | inl (x, r) ↦ rw (r, payloads) (identifier-NoColon s, (base64 s x r, flat-NoColon ss))
    ]

    -- With any payload at all, the payloads that were joined are found again.
    found_again :
        (ps : List (Text × Text))
        → All NoColon (flat ps)
        → is_empty (flat ps) ≡ false
        → pairs (split (join (flat ps))) ≡ ps
    found_again [] h ne = absurd (cc)
    found_again ((a, b) ∷ ps) h ne =
        ap pairs (split-join a (b ∷ flat ps) h.0 h.1) ∙ pairs-flat ((a, b) ∷ ps)

    Works-payloads : (ss : List Basic) → Works ss → is_empty (flat (payloads ss)) ≡ false
    unfolding Works payloads
    Works-payloads [] w = absurd w
    Works-payloads (s ∷ ss) (inl (x, r, r')) = rw (r, payloads) refl
    Works-payloads (s ∷ ss) (inr w) = elim (Result-cases (encode py s v)) [
      | inr (e, r) ↦ rw (r, payloads) (Works-payloads ss w)
      | inl (x, r) ↦ rw (r, payloads) refl
    ]

    abbrev IsChunk : Basic → Type 0
    IsChunk s = find_strategy (identifier s) chunk_strategies ≡ some s

    Works-later :
        (s : Basic) (ss : List Basic)
        → Works (s ∷ ss)
        → ((x : Text) → encode py s v ≡ return x → decode py s x ≡ return v → ⊥)
        → Works ss
    unfolding Works
    Works-later s ss (inr w) bad = w
    Works-later s ss (inl (x, r, r')) bad = absurd (bad x r r')

    try_payloads_lem :
        (count : ℕ) (ss : List Basic)
        → All IsChunk ss
        → All Harmless ss
        → Works ss
        → try_payloads py 0 count (payloads ss) ≡ return v
    unfolding try_payloads payloads Works Harmless
    try_payloads_lem count [] known h w = absurd w
    try_payloads_lem count (s ∷ ss) known h w = elim (Result-cases (encode py s v)) [
      | inr (e, r) ↦
          rw (r, payloads)
            (try_payloads_lem count ss known.1 h.1 (Works-later s ss w (λ x r' d. cc)))
      | inl (x, r) ↦ elim (h.0 x r) [
        | inl good ↦
            rw (r, payloads, known.0, deserialize_basic-append py s x, good, try_payloads) refl
        | inr (e, bad) ↦
            rw (r, payloads, known.0, deserialize_basic-append py s x, bad, try_payloads)
              (try_payloads_lem (suc count) ss known.1 h.1 (Works-later s ss w (λ x' r' d. cc)))
      ]
    ]

    -- Where no encoded text has a colon in it: a function that one of the three strategies writes and
    -- reads back survives the combined strategy, whatever the other two do, as long as they read
    -- back nothing else. Serializing it succeeds, and `deserialize` finds the function in the text.
    pub deserialize-serialize_combined :
        Harmless dill_code_source
        → Harmless dill_code
        → Harmless dill_code_text_inspect
        → Works chunk_strategies
        → (payload : Text) × (serialize_combined py v ≡ return payload)
          × (deserialize py payload ≡ return v)
    unfolding serialize_combined deserialize deserialize_combined get_multiple_payloads chomp
        split_once find_strategy identifier
    deserialize-serialize_combined h1 h2 h3 w =
        let L = payloads chunk_strategies in
        (
          combined_identifier ++ join (flat L),
          rw
              (
                chunks-payloads chunk_strategies,
                Works-payloads chunk_strategies w,
                serialize_combined,
              )
              refl,
          rw
              (
                found_again L (flat-NoColon chunk_strategies) (Works-payloads chunk_strategies w),
                deserialize,
                deserialize_combined,
                get_multiple_payloads,
              )
              (try_payloads_lem 0 chunk_strategies (refl, (refl, (refl, tt))) (h1, (h2, (h3, tt)))
                w),
        )
