-- ===== src/Serialize.antt =====
-- compute_sdk/globus_compute_sdk/serialize: base.py, concretes.py and facade.py. A serialized object
-- is a text whose first line names the strategy that wrote it. What dill, pickle, inspect and exec
-- do is the parameter `py`; base64 stands with the pickling that it is always composed with.
pub mod Buffers
pub mod Strategies
pub mod Combined
mod Tests
use func_x.Prelude.{
  ℕ, zero, suc, ◌+◌, ◌==◌, String, Bool, true, false, ◌&&◌, ◌||◌, Option, none, some, List, [], ◌∷◌,
  ◌++◌, length, take, drop, is_empty, if◌then◌else◌,
}
use func_x.Prelude.Int.{ℤ}
use func_x.Prelude.Text.{Text, split_once, slice_to, slice_from, int}
use func_x.Prelude.Decimal.{decimal}
use func_x.Prelude.Python.{
  value_error, assertion_error, serialization_error, deserialization_error, not_implemented, Result,
  return, raise,
}
use func_x.Prelude.Results.{◌>>=◌}

-- `dumps` and `loads` are dill's, `pickle_loads` is pickle's, each with base64; `dumps_source` and
-- `loads_source` are dill's on a pair of texts. `define` runs the source of a function and looks it
-- up by its name.
pub record Python (V : Type 0) : Type 0 where
  pub callable : V → Bool
  pub dumps : V → Result Text
  pub loads : Text → Result V
  pub pickle_loads : Text → Result V
  pub name : V → Result Text
  pub dill_source : V → Result Text
  pub inspect_source : V → Result Text
  pub dumps_source : Text × Text → Result Text
  pub loads_source : Text → Result (Text × Text)
  pub define : Text → Text → Result V

-- The classes whose texts hold one encoded object.
pub data Basic : Type 0 where
  dill_data_base64 dill_code_source dill_code_text_inspect pickle_code dill_code : Basic

pub data Strategy : Type 0 where
  basic : Basic → Strategy
  combined_code : Strategy

unfoldable pub identifier : Basic → Text
identifier dill_data_base64 = b'0' ∷ b'0' ∷ b'\n' ∷ []
identifier dill_code = b'0' ∷ b'1' ∷ b'\n' ∷ []
identifier pickle_code = b'0' ∷ b'2' ∷ b'\n' ∷ []
identifier dill_code_text_inspect = b'0' ∷ b'3' ∷ b'\n' ∷ []
identifier dill_code_source = b'0' ∷ b'4' ∷ b'\n' ∷ []

abbrev pub combined_identifier : Text
combined_identifier = b'1' ∷ b'0' ∷ b'\n' ∷ []

abbrev pub same_text : Text → Text → Bool
same_text [] [] = true
same_text [] (y ∷ ys) = false
same_text (x ∷ xs) [] = false
same_text (x ∷ xs) (y ∷ ys) = (x == y) && same_text xs ys

-- `SerializationStrategy.chomp`
unfoldable pub chomp : Text → Text → Result Text
chomp own payload = elim (split_once b'\n' payload) [
  | none ↦ raise value_error
  | some (s_id, rest) ↦
      if same_text (s_id ++ b'\n' ∷ []) own then return rest else raise deserialization_error
]

-- `CombinedCode._chunk_strategies`
abbrev pub chunk_strategies : List Basic
chunk_strategies = dill_code_source ∷ dill_code ∷ dill_code_text_inspect ∷ []

-- `":".join(chunks)`
unfoldable pub join : List Text → Text
join [] = []
join (x ∷ []) = x
join (x ∷ y ∷ ys) = x ++ b':' ∷ join (y ∷ ys)

-- `text.split(":")`
unfoldable pub split : Text → List Text
split [] = [] ∷ []
split (c ∷ cs) =
    let rest = split cs in
    if c == b':'
    then [] ∷ rest
    else elim rest [ [] ↦ (c ∷ []) ∷ [] | part ∷ parts ↦ (c ∷ part) ∷ parts ]

-- `zip(ai, ai)`: an odd part at the end is dropped.
unfoldable pub pairs : List Text → List (Text × Text)
pairs [] = []
pairs (x ∷ []) = []
pairs (x ∷ y ∷ ys) = (x, y) ∷ pairs ys

unfoldable pub get_multiple_payloads : Text → Result (List (Text × Text))
get_multiple_payloads payload = do
  rest ← chomp combined_identifier payload
  return (pairs (split rest))

unfoldable pub find_strategy : Text → List Basic → Option Basic
find_strategy id [] = none
find_strategy id (s ∷ ss) = if same_text id (identifier s) then some s else find_strategy id ss

-- `STRATEGIES_MAP`, by the first three characters of a payload.
abbrev pub all_basic : List Basic
all_basic =
    dill_data_base64 ∷ dill_code_source ∷ dill_code ∷ dill_code_text_inspect ∷ pickle_code ∷ []

-- `SELECTABLE_STRATEGIES`: all but the deprecated one.
abbrev is_selectable : Strategy → Bool
is_selectable (basic pickle_code) = false
is_selectable (basic _) = true
is_selectable combined_code = true

abbrev validate : Strategy → Option Strategy → Result Strategy
validate default none = return default
validate default (some s) = if is_selectable s then return s else raise serialization_error

-- `ComputeSerializer.__init__`: the strategies for code and for data.
pub new_serializer : Option Strategy → Option Strategy → Result (Strategy × Strategy)
new_serializer strategy_code strategy_data = do
  code ← validate (basic dill_code) strategy_code
  value ← validate (basic dill_data_base64) strategy_data
  return (code, value)

module _ {V : Type 0} (py : Python V) where
  -- What each class writes behind its identifier.
  unfoldable pub encode : Basic → V → Result Text
  encode dill_data_base64 value = py.dumps value
  encode dill_code value = py.dumps value
  encode pickle_code value = raise not_implemented
  encode dill_code_source value = do
    name ← py.name value
    body ← py.dill_source value
    py.dumps_source (name, body)
  encode dill_code_text_inspect value = do
    name ← py.name value
    body ← py.inspect_source value
    py.dumps_source (name, body)

  unfoldable pub serialize_basic : Basic → V → Result Text
  serialize_basic s value = do x ← encode s value; return (identifier s ++ x)

  abbrev load_source : Text → Result V
  load_source chomped = do (name, body) ← py.loads_source chomped; py.define name body

  unfoldable pub decode : Basic → Text → Result V
  decode dill_data_base64 chomped = py.loads chomped
  decode dill_code chomped = py.loads chomped
  decode pickle_code chomped = py.pickle_loads chomped
  decode dill_code_source chomped = load_source chomped
  decode dill_code_text_inspect chomped = load_source chomped

  unfoldable pub deserialize_basic : Basic → Text → Result V
  deserialize_basic s payload = do chomped ← chomp (identifier s) payload; decode s chomped

  -- The chunks of `CombinedCode.serialize`: the identifier and the rest of each text that was
  -- written; a strategy that fails is passed over.
  unfoldable pub chunks : List Basic → V → List Text
  chunks [] value = []
  chunks (s ∷ strategies) value = elim (serialize_basic s value) [
    | raise e ↦ chunks strategies value
    | return serialized ↦
        let id_length = length (identifier s) in
        take id_length serialized ∷ drop id_length serialized ∷ chunks strategies value
  ]

  unfoldable pub serialize_combined : V → Result Text
  serialize_combined value =
      let found = chunks chunk_strategies value in
      if is_empty found
      then raise serialization_error
      else return (combined_identifier ++ join found)

  -- The loop of `CombinedCode.deserialize`.
  unfoldable pub try_payloads : ℕ → ℕ → List (Text × Text) → Result V
  try_payloads variation count [] = raise deserialization_error
  try_payloads variation count ((serial_id, encoded_func) ∷ payloads) =
      let later = try_payloads variation (suc count) payloads in
      if (variation == 0) || (suc count == variation)
      then elim (find_strategy serial_id chunk_strategies) [
        | none ↦ raise deserialization_error
        | some s ↦ elim (deserialize_basic s (serial_id ++ encoded_func)) [
          | return v ↦ return v
          | raise e ↦ if variation == 0 then later else raise deserialization_error
        ]
      ]
      else later

  unfoldable pub deserialize_combined : ℕ → Text → Result V
  deserialize_combined variation payload = do
    payloads ← get_multiple_payloads payload
    try_payloads variation 0 payloads

  unfoldable pub serialize_with : Strategy → V → Result Text
  serialize_with (basic s) value = serialize_basic s value
  serialize_with combined_code value = serialize_combined value

  -- `ComputeSerializer.serialize` with the strategies that it was made with.
  unfoldable pub serialize : Strategy → Strategy → V → Result Text
  serialize strategy_code strategy_data value =
      elim (serialize_with (if py.callable value then strategy_code else strategy_data) value) [
        | return s ↦ return s
        | raise e ↦ raise serialization_error
      ]

  unfoldable pub deserialize : Text → Result V
  deserialize payload =
      let header = take 3 payload in
      elim (find_strategy header all_basic) [
        | some s ↦ deserialize_basic s payload
        | none ↦
            if same_text header combined_identifier
            then deserialize_combined 0 payload
            else raise deserialization_error
      ]

unfoldable pub pack_loop : List Text → Text → Text
pack_loop [] packed = packed
pack_loop (buf ∷ buffers) packed =
    let s_length = decimal (length buf) ++ b'\n' ∷ [] in
    pack_loop buffers (packed ++ (s_length ++ buf))

unfoldable pub pack_buffers : List Text → Text
pack_buffers buffers = pack_loop buffers []

-- One round of the `while` loops: the next buffer, and what is left of the text.
unfoldable pub next_buffer : Text → Result (Text × Text)
next_buffer packed_buffer = elim (split_once b'\n' packed_buffer) [
  | none ↦ raise value_error
  | some (s_length, buf) ↦ do
    i_length ← int s_length
    return (slice_to i_length buf, slice_from i_length buf)
]

-- The loops of `unpack_buffers` and `unpack_and_deserialize`, which differ in what becomes of a
-- buffer. A round shortens the text, so its length is fuel enough.
unfoldable pub unpack_loop {ℓ} :
    {A : Type ℓ} → (Text → Result A) → ℕ → Text → List A → Result (List A)
unpack_loop each fuel [] unpacked = return unpacked
unpack_loop each zero (c ∷ cs) unpacked = return unpacked
unpack_loop each (suc fuel) (c ∷ cs) unpacked = do
  (current, rest) ← next_buffer (c ∷ cs)
  a ← each current
  unpack_loop each fuel rest (unpacked ++ a ∷ [])

unfoldable pub unpack_buffers : Text → Result (List Text)
unpack_buffers packed_buffer = unpack_loop (λ s. return s) (length packed_buffer) packed_buffer []

module _ {V : Type 0} (py : Python V) where
  unfoldable pub unpack_and_deserialize : Text → Result (List V)
  unpack_and_deserialize packed_buffer = do
    unpacked ← unpack_loop (deserialize py) (length packed_buffer) packed_buffer []
    if length unpacked == 3 then return unpacked else raise assertion_error

  -- `args` and `kwargs` are objects as well.
  unfoldable pub check_strategies : Strategy → Strategy → V → V → V → Result (List V)
  check_strategies strategy_code strategy_data function args kwargs =
      elim (do
        ser_fn ← serialize py strategy_code strategy_data function
        ser_args ← serialize py strategy_code strategy_data args
        ser_kwargs ← serialize py strategy_code strategy_data kwargs
        return (pack_buffers (ser_fn ∷ ser_args ∷ ser_kwargs ∷ []))) [
          | raise e ↦ raise serialization_error
          | return packed ↦ elim (unpack_and_deserialize packed) [
            | raise e ↦ raise deserialization_error
            | return unpacked ↦ return unpacked
          ]
        ]
