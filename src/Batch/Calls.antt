-- ===== src/Batch/Calls.antt =====
-- What a call that was added to a batch holds.
use func_x.Prelude.{
  suc, ◌≡◌, ◌≢◌, refl, String, Option, List, [], ◌∷◌, ◌++◌, length, length-append, arith,
}
use func_x.Prelude.Dict.{Dict, get?, put, get_or, get?-put_self, get?-put_ne}
use func_x.Prelude.Python.{return}
use func_x.Prelude.Text.{Text}
use func_x.Serialize.{Python, Basic, basic, serialize, deserialize, pack_buffers, unpack_loop}
use func_x.Serialize.Buffers.{framed, in_turn, pack_buffers-framed, unpack_loop-framed}
use func_x.Serialize.Strategies.{IsDocumented, SuitsOne, deserialize-serialize}
use func_x.Batch.{Batch, num_calls, or_default, add}

num_calls-put :
    (k : String) (p : Text) (d : Dict (List Text))
    → num_calls (put k (get_or k [] d ++ p ∷ []) d) ≡ suc (num_calls d)
unfolding put get?
num_calls-put k p [] = omega arith
num_calls-put k p ((j, ps) ∷ d) = ground (arith, num_calls-put k p d, length-append ps (p ∷ []))

module _ {V : Type 0} (py : Python V) (IsPlain : V → Type 0) (doc : IsDocumented py IsPlain)
    (code value : Basic) (no_args no_kwargs : V) where
  abbrev HoldsTwo : Text → V → V → Type 0
  HoldsTwo payload x y =
      unpack_loop (deserialize py) (length payload) payload [] ≡ return (x ∷ y ∷ [])

  payload-HoldsTwo :
      (x y : V) (s t : Text)
      → SuitsOne py IsPlain doc code value x
      → SuitsOne py IsPlain doc code value y
      → serialize py (basic code) (basic value) x ≡ return s
      → serialize py (basic code) (basic value) y ≡ return t
      → HoldsTwo (pack_buffers (s ∷ t ∷ [])) x y
  unfolding in_turn
  payload-HoldsTwo x y s t p q h i =
      rw
        (
          pack_buffers-framed (s ∷ t ∷ []),
          unpack_loop-framed (deserialize py) (length (framed (s ∷ t ∷ []))) (s ∷ t ∷ []) []
              (omega arith),
          deserialize-serialize py IsPlain doc code value x s p h,
          deserialize-serialize py IsPlain doc code value y t q i,
        )
        refl

  -- A call whose arguments can be serialized and read back is added, behind the earlier calls of its function and
  -- with no change to the other functions: the batch is one longer, and the text that was added
  -- unpacks into the two arguments, or what stands for those that were left out.
  pub add_lem :
      (id : String) (args kwargs : Option V) (b : Batch) {s t : Text}
      → SuitsOne py IsPlain doc code value (or_default no_args args)
      → SuitsOne py IsPlain doc code value (or_default no_kwargs kwargs)
      → serialize py (basic code) (basic value) (or_default no_args args) ≡ return s
      → serialize py (basic code) (basic value) (or_default no_kwargs kwargs) ≡ return t
      → let after = add py (basic code) (basic value) no_args no_kwargs id args kwargs b in
        (after.0 ≡ return tt)
        × (num_calls after.1.tasks ≡ suc (num_calls b.tasks))
        × ((other : String) → id ≢ other → get_or other [] after.1.tasks ≡ get_or other [] b.tasks)
        × (payload : Text) × (get_or id [] after.1.tasks ≡ get_or id [] b.tasks ++ payload ∷ [])
        × (unpack_loop (deserialize py) (length payload) payload []
            ≡ return (or_default no_args args ∷ or_default no_kwargs kwargs ∷ []))
  unfolding add
  add_lem id args kwargs b {s} {t} p q h i =
      let payload = pack_buffers (s ∷ t ∷ []) in
      let filled = get_or id [] b.tasks ++ payload ∷ [] in
      rw (h, i, add)
        (
          refl,
          num_calls-put id payload b.tasks,
          (λ other ne. rw (get?-put_ne other id filled b.tasks ne) refl),
          payload,
          rw (get?-put_self id filled b.tasks) refl,
          payload-HoldsTwo (or_default no_args args) (or_default no_kwargs kwargs) s t p q h i,
        )
