-- ===== src/Serialize/Tests.antt =====
-- Runs of the serializer, and the theorems at inputs that meet their hypotheses. Here a function is
-- its own source and its own name.
use mathlib.Core.Path.{subst}
use func_x.Prelude.{
  none, some, ◌≡◌, refl, sym, true, false, List, [], ◌∷◌, ◌++◌, length, arith, inl, inr,
}
use func_x.Prelude.Text.{Text, int, split_once}
use func_x.Prelude.Decimal.{decimal, emit}
use func_x.Prelude.Python.{value_error, serialization_error, Result, return, raise}
use func_x.Prelude.Results.{◌>>=◌}
use func_x.Serialize.{
  new_serializer, Python, Basic, dill_data_base64, dill_code_source, dill_code_text_inspect,
  pickle_code, dill_code, basic, identifier, encode, decode, serialize_basic, serialize_with,
  serialize, deserialize, check_strategies, pack_buffers, pack_loop, next_buffer, unpack_loop,
  unpack_buffers, serialize_combined,
}
use func_x.Serialize.Buffers.{unpack_buffers-pack_buffers, unpack_loop_ends}
use func_x.Serialize.Strategies.{IsDocumented, Suits, decode-encode, check_strategies_lem}
use func_x.Serialize.Combined.{NoColon, Works, Harmless, deserialize-serialize_combined}

abbrev pair_of : List Text → Result (Text × Text)
pair_of [] = raise value_error
pair_of (n ∷ []) = raise value_error
pair_of (n ∷ b ∷ []) = return (n, b)
pair_of (n ∷ b ∷ c ∷ rest) = raise value_error

abbrev python : Python Text
python = record {
  callable = λ v. elim v [ [] ↦ false | _ ∷ _ ↦ true ];
  dumps = λ v. return v;
  loads = λ x. return x;
  pickle_loads = λ x. return x;
  name = λ v. return v;
  dill_source = λ v. raise value_error;
  inspect_source = λ v. return v;
  dumps_source = λ p. return (pack_buffers (p.0 ∷ p.1 ∷ []));
  loads_source = λ x. unpack_buffers x >>= pair_of;
  define = λ n b. return b;
}

-- The source of every text defines it again.
abbrev IsAny : Text → Type 0
IsAny v = Unit

python-IsDocumented : IsDocumented python IsAny
python-IsDocumented = record {
  pickled = λ v x h. sym h;
  source_pickled = λ p x h.
      let same : pack_buffers (p.0 ∷ p.1 ∷ []) ≡ x = ground arith in
      rw (sym same, unpack_buffers-pack_buffers (p.0 ∷ p.1 ∷ [])) refl;
  dill_defines = λ v n b plain named sourced. absurd (cc);
  inspect_defines = λ v n b plain named sourced. sym sourced;
}

abbrev f : Text
f = b'f' ∷ b'\n' ∷ []

Suits-any : (s : Basic) (v : Text) → Suits python IsAny python-IsDocumented s v
Suits-any dill_data_base64 v = tt
Suits-any dill_code v = tt
Suits-any pickle_code v = tt
Suits-any dill_code_source v = tt
Suits-any dill_code_text_inspect v = tt

program : Unit {0}
unfolding int split_once decimal emit identifier encode decode serialize_basic serialize_with
    serialize pack_buffers pack_loop next_buffer unpack_loop unpack_buffers Works Harmless
program = tt

packed_two : pack_buffers (f ∷ [] ∷ []) ≡ b'2' ∷ b'\n' ∷ b'f' ∷ b'\n' ∷ b'0' ∷ b'\n' ∷ []
unfolding program
packed_two = refl

-- The deprecated strategy is refused; without a choice the defaults are taken.
refused : new_serializer (some (basic pickle_code)) none ≡ raise serialization_error
unfolding new_serializer
refused = refl

defaults : new_serializer none none ≡ return (basic dill_code, basic dill_data_base64)
unfolding new_serializer
defaults = refl

-- A length that is no number.
bad_length : unpack_buffers (b'x' ∷ b'\n' ∷ []) ≡ raise value_error
unfolding program
bad_length = refl

-- A negative length: the last characters are read once more.
negative_length :
    unpack_buffers (b'-' ∷ b'2' ∷ b'\n' ∷ b'a' ∷ b'0' ∷ b'\n' ∷ []) ≡ return ((b'a' ∷ []) ∷ [] ∷ [])
unfolding program
negative_length = refl

unpack_buffers-pack_buffers_example :
    unpack_buffers (pack_buffers (f ∷ [] ∷ [])) ≡ return (f ∷ [] ∷ [])
unpack_buffers-pack_buffers_example = unpack_buffers-pack_buffers (f ∷ [] ∷ [])

unpack_loop_ends_example : unpack_loop {A = Text} (λ s. return s) 2 (b'0' ∷ b'\n' ∷ []) [] ≡ (do
  (current, rest) ← next_buffer (b'0' ∷ b'\n' ∷ [])
  a ← return current
  unpack_loop (λ s. return s) (length rest) rest ([] ++ a ∷ []))
unpack_loop_ends_example = unpack_loop_ends (λ s. return s) b'0' (b'\n' ∷ []) []

check_strategies_lem_example :
    check_strategies python (basic dill_code_text_inspect) (basic dill_data_base64) f [] []
    ≡ return (f ∷ [] ∷ [] ∷ [])
check_strategies_lem_example =
    check_strategies_lem python IsAny python-IsDocumented dill_code_text_inspect dill_data_base64 f
      [] [] {s = b'0' ∷ b'3' ∷ b'\n' ∷ pack_buffers (f ∷ f ∷ [])} {t = b'0' ∷ b'0' ∷ b'\n' ∷ []}
      {u = b'0' ∷ b'0' ∷ b'\n' ∷ []} (λ e. tt, λ e. tt) (λ e. tt, λ e. tt) (λ e. tt, λ e. tt)
      (unfold program in refl) (unfold program in refl) (unfold program in refl)

returned : (a x : Text) → Result.return a ≡ Result.return x → a ≡ x
returned a x h = ground arith

f-NoColon : (s : Basic) (x : Text) → encode python s f ≡ return x → NoColon x
unfolding program
f-NoColon dill_data_base64 x h = subst NoColon (returned f x h) (refl, (refl, tt))
f-NoColon dill_code x h = subst NoColon (returned f x h) (refl, (refl, tt))
f-NoColon pickle_code x h = absurd (cc)
f-NoColon dill_code_source x h = absurd (cc)
f-NoColon dill_code_text_inspect x h =
    subst NoColon (returned (pack_buffers (f ∷ f ∷ [])) x h)
      (refl, (refl, (refl, (refl, (refl, (refl, (refl, (refl, tt))))))))

f-Harmless : (s : Basic) → Harmless python f s
unfolding Harmless
f-Harmless s x h = inl (decode-encode python IsAny python-IsDocumented s f x (Suits-any s f) h)

deserialize-serialize_combined_example :
    (payload : Text) × (serialize_combined python f ≡ return payload)
    × (deserialize python payload ≡ return f)
deserialize-serialize_combined_example =
    deserialize-serialize_combined python f f-NoColon (f-Harmless dill_code_source)
      (f-Harmless dill_code) (f-Harmless dill_code_text_inspect)
      (unfold program in inr (inl (f, refl, refl)))
