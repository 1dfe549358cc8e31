-- ===== src/Adapters/Stores.antt =====
-- common/adapters/object_store.py and secret_store.py: the stores in memory, a dictionary from keys to
-- values; both have the same operations. A missing key raises KeyError.
use dox.Prelude.{
  ◌≡◌, refl, Bool, true, false, String, List, [], ◌∷◌, any, if◌then◌else◌, ◌==◌, String_eq, arith,
  eq_iff,
}
use dox.Result.{Result, ok, err, key_error}

abbrev pub Store : Type 0 → Type 0
Store V = List (String × V)

module _ {V : Type 0} where
  -- `put` and `set_secret`
  unfoldable pub put : String → V → Store V → Store V
  put key data_ [] = (key, data_) ∷ []
  put key data_ ((k, v) ∷ store) =
      if k == key then (k, data_) ∷ store else (k, v) ∷ put key data_ store

  -- `get` and `get_secret`
  unfoldable pub get : String → Store V → Result V
  get key [] = err key_error
  get key ((k, v) ∷ store) = if k == key then ok v else get key store

  -- `delete` and `delete_secret`: a key that is missing is no error. A key occurs once at most.
  unfoldable pub delete : String → Store V → Store V
  delete key [] = []
  delete key ((k, v) ∷ store) = if k == key then delete key store else (k, v) ∷ delete key store

  unfoldable pub exists : String → Store V → Bool
  exists key store = any (λ e. e.0 == key) store

  abbrev pub is_ok : Result V → Bool
  is_ok (ok v) = true
  is_ok (err e) = false

  get-delete :
      (k j : String) (store : Store V)
      → get j (delete k store) ≡ (if k == j then err key_error else get j store)
  unfolding get delete
  get-delete k j [] = ground arith
  get-delete k j ((i, v) ∷ store) =
      ground (arith, eq_iff k j, eq_iff i k, eq_iff i j, get-delete k j store)

  get-put_lem :
      (k j : String) (d : V) (store : Store V)
      → get j (put k d store) ≡ (if k == j then ok d else get j store)
  unfolding get put
  get-put_lem k j d [] = ground (arith, eq_iff k j)
  get-put_lem k j d ((i, v) ∷ store) =
      ground (arith, eq_iff k j, eq_iff i k, eq_iff i j, get-put_lem k j d store)

  exists-get : (j : String) (store : Store V) → exists j store ≡ is_ok (get j store)
  unfolding get exists
  exists-get j [] = refl
  exists-get j ((i, v) ∷ store) = ground (arith, exists-get j store)

  -- What a store in memory promises: a value that was put is got under its key, a key that was deleted is
  -- missing, every other key is as before, and a key exists exactly when it can be got.
  pub get-put :
      (k j : String) (d : V) (store : Store V)
      → (get j (put k d store) ≡ (if k == j then ok d else get j store))
        × (get j (delete k store) ≡ (if k == j then err key_error else get j store))
        × (exists j store ≡ is_ok (get j store))
  get-put k j d store = (get-put_lem k j d store, get-delete k j store, exists-get j store)
