-- ===== src/Serialize/Strategies.antt =====
-- What one strategy writes, `deserialize` reads back.
use func_x.Prelude.{
  true, false, ◌≡◌, refl, some, [], ◌∷◌, ◌++◌, length, ◌∙◌, Bool-cases, inl, inr, take, arith,
}
use func_x.Prelude.Text.{Text, split_once}
use func_x.Prelude.Python.{return}
use func_x.Prelude.Results.{bind-returned}
use func_x.Serialize.{
  Python, Basic, dill_data_base64, dill_code_source, dill_code_text_inspect, pickle_code, dill_code,
  basic, identifier, chomp, find_strategy, all_basic, encode, decode, serialize_basic,
  deserialize_basic, serialize_with, serialize, deserialize, unpack_and_deserialize,
  check_strategies,
}
use func_x.Serialize.Buffers.{framed, in_turn, pack_buffers-framed, unpack_loop-framed}

-- What is relied on of dill, inspect and exec: a pickle is loaded as the object it was made of, and
-- the source of a plain function defines it again under its name. Which functions are plain is left
-- open; lambdas and decorated functions, whose source is not all of them, are not.
pub record IsDocumented {V : Type 0} (py : Python V) (IsPlain : V → Type 0) : Type 0 where
  pub pickled : (v : V) (x : Text) → py.dumps v ≡ return x → py.loads x ≡ return v
  pub source_pickled :
      (p : Text × Text) (x : Text) → py.dumps_source p ≡ return x → py.loads_source x ≡ return p
  pub dill_defines :
      (v : V) (name body : Text)
      → IsPlain v
      → py.name v ≡ return name
      → py.dill_source v ≡ return body
      → py.define name body ≡ return v
  pub inspect_defines :
      (v : V) (name body : Text)
      → IsPlain v
      → py.name v ≡ return name
      → py.inspect_source v ≡ return body
      → py.define name body ≡ return v

pub chomp-identifier : (s : Basic) (x : Text) → chomp (identifier s) (identifier s ++ x) ≡ return x
unfolding chomp split_once identifier
chomp-identifier dill_data_base64 x = refl
chomp-identifier dill_code_source x = refl
chomp-identifier dill_code_text_inspect x = refl
chomp-identifier pickle_code x = refl
chomp-identifier dill_code x = refl

find_strategy-header :
    (s : Basic) (x : Text) → find_strategy (take 3 (identifier s ++ x)) all_basic ≡ some s
unfolding find_strategy identifier
find_strategy-header dill_data_base64 x = refl
find_strategy-header dill_code_source x = refl
find_strategy-header dill_code_text_inspect x = refl
find_strategy-header pickle_code x = refl
find_strategy-header dill_code x = refl

module _ {V : Type 0} (py : Python V) where
  pub deserialize_basic-append :
      (s : Basic) (x : Text) → deserialize_basic py s (identifier s ++ x) ≡ decode py s x
  unfolding deserialize_basic
  deserialize_basic-append s x = rw (chomp-identifier s x) refl

  pub deserialize-append :
      (s : Basic) (x : Text) → deserialize py (identifier s ++ x) ≡ decode py s x
  unfolding deserialize
  deserialize-append s x = rw (find_strategy-header s x, deserialize) (deserialize_basic-append s x)

  module _ (IsPlain : V → Type 0) (doc : IsDocumented py IsPlain) where
    -- What a strategy can read back: with the two that write the source, plain functions only.
    abbrev pub Suits : Basic → V → Type 0
    Suits dill_code_source v = IsPlain v
    Suits dill_code_text_inspect v = IsPlain v
    Suits _ v = Unit

    -- The same for the strategy that the serializer takes for an object.
    abbrev pub SuitsOne : Basic → Basic → V → Type 0
    SuitsOne code value v =
        (py.callable v ≡ true → Suits code v) × (py.callable v ≡ false → Suits value v)

    pub decode-encode :
        (s : Basic) (v : V) (x : Text)
        → Suits s v
        → encode py s v ≡ return x
        → decode py s x ≡ return v
    unfolding encode decode
    decode-encode dill_data_base64 v x p h = doc.pickled v x h
    decode-encode dill_code v x p h = doc.pickled v x h
    decode-encode pickle_code v x p h = absurd (cc)
    decode-encode dill_code_source v x p h =
        let (n, named, h1) = bind-returned (py.name v) _ x h in
        let (b, sourced, h2) = bind-returned (py.dill_source v) _ x h1 in
        rw (doc.source_pickled (n, b) x h2) (doc.dill_defines v n b p named sourced)
    decode-encode dill_code_text_inspect v x p h =
        let (n, named, h1) = bind-returned (py.name v) _ x h in
        let (b, sourced, h2) = bind-returned (py.inspect_source v) _ x h1 in
        rw (doc.source_pickled (n, b) x h2) (doc.inspect_defines v n b p named sourced)

    -- What a strategy serializes, `deserialize` tells by its header and reads back as the object.
    pub deserialize-serialize_basic :
        (s : Basic) (v : V) (payload : Text)
        → Suits s v
        → serialize_basic py s v ≡ return payload
        → deserialize py payload ≡ return v
    unfolding serialize_basic
    deserialize-serialize_basic s v payload p h =
        let (x, encoded, h') = bind-returned (encode py s v) _ payload h in
        let same : payload ≡ identifier s ++ x = ground arith in
        rw same (deserialize-append s x ∙ decode-encode s v x p encoded)

    pub deserialize-serialize :
        (code value : Basic) (v : V) (payload : Text)
        → SuitsOne code value v
        → serialize py (basic code) (basic value) v ≡ return payload
        → deserialize py payload ≡ return v
    unfolding serialize serialize_with
    deserialize-serialize code value v payload p h = elim (Bool-cases (py.callable v)) [
      | inl c ↦ deserialize-serialize_basic code v payload (p.0 c) (ground arith)
      | inr c ↦ deserialize-serialize_basic value v payload (p.1 c) (ground arith)
    ]

    -- With any basic strategies, where dill loads what it dumps and exec defines plain functions from
    -- their source, and where an object that is written as its source is a plain function: the three
    -- objects of a call are the same after the serializer has written, packed, unpacked and read
    -- them, if each of them can be serialized.
    pub check_strategies_lem :
        (code value : Basic) (function args kwargs : V) {s t u : Text}
        → SuitsOne code value function
        → SuitsOne code value args
        → SuitsOne code value kwargs
        → serialize py (basic code) (basic value) function ≡ return s
        → serialize py (basic code) (basic value) args ≡ return t
        → serialize py (basic code) (basic value) kwargs ≡ return u
        → check_strategies py (basic code) (basic value) function args kwargs
          ≡ return (function ∷ args ∷ kwargs ∷ [])
    unfolding check_strategies unpack_and_deserialize in_turn
    check_strategies_lem code value function args kwargs {s} {t} {u} p q r h i j =
        rw
          (
            h,
            i,
            j,
            pack_buffers-framed (s ∷ t ∷ u ∷ []),
            unpack_loop-framed (deserialize py) (length (framed (s ∷ t ∷ u ∷ []))) (s ∷ t ∷ u ∷ [])
                [] (omega arith),
            deserialize-serialize code value function s p h,
            deserialize-serialize code value args t q i,
            deserialize-serialize code value kwargs u r j,
            check_strategies,
          )
          refl
