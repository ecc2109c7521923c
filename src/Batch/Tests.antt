-- ===== src/Batch/Tests.antt =====
-- A batch of two calls, and the theorem at inputs that meet its hypotheses. The objects are texts,
-- which are their own pickles.
use func_x.Prelude.{◌≡◌, refl, true, false, none, some, [], ◌∷◌, sym}
use func_x.Prelude.Dict.{get?, put}
use func_x.Prelude.Decimal.{decimal, emit}
use func_x.Prelude.Python.{not_implemented, return, raise}
use func_x.Prelude.Text.{Text}
use func_x.Serialize.{
  Python, dill_code, dill_data_base64, basic, identifier, encode, serialize_basic, serialize_with,
  serialize, pack_buffers, pack_loop,
}
use func_x.Serialize.Strategies.{IsDocumented}
use func_x.Batch.{Batch, init, all_called, num_calls, add, prepare}

abbrev python : Python Text
python = record {
  callable = λ v. false;
  dumps = λ v. return v;
  loads = λ x. return x;
  pickle_loads = λ x. return x;
  name = λ v. raise not_implemented;
  dill_source = λ v. raise not_implemented;
  inspect_source = λ v. raise not_implemented;
  dumps_source = λ p. raise not_implemented;
  loads_source = λ x. raise not_implemented;
  define = λ n b. raise not_implemented;
}

python-IsDocumented : IsDocumented python (λ v. ⊥)
python-IsDocumented = record {
  pickled = λ v x h. sym h;
  source_pickled = λ p x h. absurd (cc);
  dill_defines = λ v n b plain named sourced. absurd (cc);
  inspect_defines = λ v n b plain named sourced. absurd (cc);
}

program : Unit {0}
unfolding add get? put decimal emit identifier encode serialize_basic serialize_with serialize
    pack_buffers pack_loop
program = tt

abbrev one : Batch
one =
    (add python (basic dill_code) (basic dill_data_base64) [] [] "f" (some (b'7' ∷ [])) none
      (init none none true)).1

one_call :
    (num_calls one.tasks ≡ 1) × (all_called one.tasks ≡ true) × ((prepare one).create_queue ≡ true)
unfolding program
one_call = (refl, refl, refl)
