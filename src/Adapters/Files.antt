-- ===== src/Adapters/Files.antt =====
-- common/adapters/object_store.py: the store in local files. A location is the list of its names from
-- the root. The file system is outside the repository: a parameter, with what a write, a removal and the
-- making of the parent directories leave alone. So is `(base / key).resolve()`, which follows `..`, links
-- and absolute keys.
use dox.Prelude.{
  ap, ◌∙◌, ◌⊎◌, ◌≡◌, refl, ◌≢◌, Bool, true, false, ◌&&◌, String, Option, List, [], ◌∷◌,
  if◌then◌else◌, ◌==◌, String_eq, Bool-cases, inl, inr,
}
use dox.Result.{Result, ok, err, value_error, key_error, Exec, ◌>>=◌, ◌>>◌, reads, Result-cases}

abbrev pub Location : Type 0
Location = List String

-- `relative_to` succeeds.
unfoldable pub is_under : Location → Location → Bool
is_under [] location = true
is_under (b ∷ base) [] = false
is_under (b ∷ base) (n ∷ location) = b == n && is_under base location

pub record Disk (V : Type 0) : Type 1 where
  pub State : Type 0
  -- The file at a location.
  pub look : Location → State → Option V
  pub resolve : Location → String → Location
  pub make_parents : Location → Exec State (Unit {0})
  pub write_bytes : Location → V → Exec State (Unit {0})
  pub unlink : Location → Exec State (Unit {0})
  pub read_bytes : Location → State → Result V
  pub path_exists : Location → State → Bool
  -- Making a directory changes no file; a write and a removal change the one file, returned or raised.
  pub make_parents_frame : (p q : Location) (s : State) → look q (make_parents p s).1 ≡ look q s
  pub write_frame :
      (p q : Location) (v : V) (s : State) → p ≢ q → look q (write_bytes p v s).1 ≡ look q s
  pub unlink_frame : (p q : Location) (s : State) → p ≢ q → look q (unlink p s).1 ≡ look q s

module _ {V : Type 0} (disk : Disk V) (base : Location) where
  unfoldable pub resolve_path : String → Result Location
  unfolding is_under
  resolve_path key =
      let resolved = disk.resolve base key in
      if is_under base resolved then ok resolved else err value_error

  unfoldable pub put : String → V → Exec disk.State (Unit {0})
  unfolding resolve_path
  put key data_ = do
    path ← reads (λ s. resolve_path key)
    disk.make_parents path
    disk.write_bytes path data_

  abbrev read_at : Location → disk.State → Result V
  read_at path s = if disk.path_exists path s then disk.read_bytes path s else err key_error

  unfoldable pub get : String → Exec disk.State V
  unfolding resolve_path
  get key = do path ← reads (λ s. resolve_path key); reads (read_at path)

  abbrev unlink_at : Location → Exec disk.State (Unit {0})
  unlink_at path s = if disk.path_exists path s then disk.unlink path s else (ok tt, s)

  unfoldable pub delete : String → Exec disk.State (Unit {0})
  unfolding resolve_path
  delete key = do path ← reads (λ s. resolve_path key); unlink_at path

  unfoldable pub exists : String → disk.State → Result Bool
  unfolding resolve_path
  exists key s = elim (resolve_path key) [ ok path ↦ ok (disk.path_exists path s) | err e ↦ err e ]

  inside-outside : (p q : Location) → is_under base p ≡ true → is_under base q ≡ false → p ≢ q
  inside-outside p q h k e = cc (ap (is_under base) e)

  abbrev resolved_cases :
      (key : String)
      → ((is_under base (disk.resolve base key) ≡ true)
          × (resolve_path key ≡ ok (disk.resolve base key)))
        ⊎ ((is_under base (disk.resolve base key) ≡ false) × (resolve_path key ≡ err value_error))
  unfolding resolve_path
  resolved_cases key = elim (Bool-cases (is_under base (disk.resolve base key))) [
    | inl inside ↦ inl (inside, rw inside refl)
    | inr outside ↦ inr (outside, rw outside refl)
  ]

  written :
      (p q : Location) (d : V) (s : disk.State)
      → p ≢ q
      → disk.look q ((disk.make_parents p >> disk.write_bytes p d) s).1 ≡ disk.look q s
  written p q d s apart = elim (Result-cases (disk.make_parents p s).0) [
    | inl (u, e) ↦
        rw e
          (disk.write_frame p q d (disk.make_parents p s).1 apart ∙ disk.make_parents_frame p q s)
    | inr (x, e) ↦ rw e (disk.make_parents_frame p q s)
  ]

  unlinked :
      (p q : Location) (s : disk.State) → p ≢ q → disk.look q (unlink_at p s).1 ≡ disk.look q s
  unlinked p q s apart = elim (Bool-cases (disk.path_exists p s)) [
    | inl there ↦ rw there (disk.unlink_frame p q s apart)
    | inr missing ↦ rw missing refl
  ]

  -- A key leads to a location under the root, or every operation refuses it and changes nothing.
  abbrev pub Guards : Result Location → String → V → disk.State → Type 0
  Guards (ok path) key d s = is_under base path ≡ true
  Guards (err e) key d s =
      (put key d s ≡ (err value_error, s))
      × (get key s ≡ (err value_error, s))
      × (delete key s ≡ (err value_error, s))
      × (exists key s ≡ err value_error)

  refused :
      (key : String) (d : V) (s : disk.State)
      → resolve_path key ≡ err value_error
      → Guards (err value_error) key d s
  unfolding put get delete exists
  refused key d s bad = (rw bad refl, rw bad refl, rw bad refl, rw (exists, bad) refl)

  -- Whatever the key, a put and a delete change no file outside the root of the store; and a key that
  -- leads out of the root raises ValueError in every operation and changes nothing.
  pub put-is_under :
      (key : String) (q : Location) (d : V) (s : disk.State)
      → is_under base q ≡ false
      → (disk.look q (put key d s).1 ≡ disk.look q s)
        × (disk.look q (delete key s).1 ≡ disk.look q s)
        × Guards (resolve_path key) key d s
  unfolding put delete
  put-is_under key q d s outside = elim (resolved_cases key) [
    | inr (out, bad) ↦ (rw bad refl, rw bad refl, rw bad (refused key d s bad))
    | inl (inside, good) ↦
        let p = disk.resolve base key in
        let apart = inside-outside p q inside outside in
        (rw good (written p q d s apart), rw good (unlinked p q s apart), rw good inside)
  ]
