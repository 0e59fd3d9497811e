-- ===== src/Reports/Reading.antt =====
-- What is read after a replacement.
use Prim.Native.String.{String}
use gapforge.Common.{
  ℕ, ◌≤◌, ◌≡◌, refl, sym, subst, inl, inr, Bool, true, false, &&-eq-true, Option, none, some, [],
  ◌∷◌, arith, nat_beq, ◌==◌, nat_eq, string_eq, if◌then◌else◌, length, Bool-cases,
}
use gapforge.Reports.Store.{
  Bytes, Place, run_file, pointer_file, latest_file, same_place, Entry, regular, special, Disk,
  entry_at, replace_file, read, read_entry, read_regular_file, Pointer, same_pointer,
}
use gapforge.Reports.Publish.{same_bytes_of}

text_same : (s : String) → (s == s) ≡ true
text_same s = (string_eq.agree_iff s s).1 refl

pub same_place_refl : (p : Place) → same_place p p ≡ true
same_place_refl (run_file d i) = ground (arith, text_same d, text_same i)
same_place_refl pointer_file = refl
same_place_refl latest_file = refl

pub same_place-eq : (p q : Place) → same_place p q ≡ true → p ≡ q
same_place-eq (run_file d i) (run_file e j) h =
    let (x, y) = &&-eq-true (d == e) (i == j) h in
    let same_date : d ≡ e = (string_eq.agree_iff d e).0 x in
    let same_id : i ≡ j = (string_eq.agree_iff i j).0 y in rw (same_date, same_id) refl
same_place-eq (run_file _ _) pointer_file h = absurd (cc)
same_place-eq (run_file _ _) latest_file h = absurd (cc)
same_place-eq pointer_file (run_file _ _) h = absurd (cc)
same_place-eq pointer_file pointer_file h = refl
same_place-eq pointer_file latest_file h = absurd (cc)
same_place-eq latest_file (run_file _ _) h = absurd (cc)
same_place-eq latest_file pointer_file h = absurd (cc)
same_place-eq latest_file latest_file h = refl

pub entry_at-replace_file_self :
    (p : Place) (b : Bytes) (d : Disk) → entry_at p (replace_file p b d) ≡ some (regular b)
entry_at-replace_file_self p b [] = rw (same_place_refl p) refl
entry_at-replace_file_self p b ((q, e) ∷ d) = elim (Bool-cases (same_place q p)) [
  | inl same ↦ rw (same, same) refl
  | inr other ↦ rw (other, other) (entry_at-replace_file_self p b d)
]

pub entry_at-replace_file_ne :
    (p q : Place) (b : Bytes) (d : Disk)
    → same_place p q ≡ false
    → entry_at q (replace_file p b d) ≡ entry_at q d
entry_at-replace_file_ne p q b [] h = rw h refl
entry_at-replace_file_ne p q b ((o, e) ∷ d) h = elim (Bool-cases (same_place o p)) [
  | inl same ↦
      let is : o ≡ p = same_place-eq o p same in
      let away : same_place o q ≡ false = subst (λ x. same_place x q ≡ false) (sym is) h in
      rw (same, away) refl
  | inr differs ↦ rw differs (tested (same_place o q) (entry_at-replace_file_ne p q b d h))
]
  where
    tested :
        (b' : Bool)
        → entry_at q (replace_file p b d) ≡ entry_at q d
        → (if b' then some e else entry_at q (replace_file p b d))
          ≡ (if b' then some e else entry_at q d)
    tested true rest = refl
    tested false rest = rest

pub same_bytes_of_refl : (b : Bytes) → same_bytes_of b b ≡ true
same_bytes_of_refl [] = refl
same_bytes_of_refl (x ∷ xs) = ground (arith, same_bytes_of_refl xs)

pub same_bytes_of-eq : (a b : Bytes) → same_bytes_of a b ≡ true → a ≡ b
same_bytes_of-eq [] [] h = refl
same_bytes_of-eq [] (y ∷ ys) h = absurd (cc)
same_bytes_of-eq (x ∷ xs) [] h = absurd (cc)
same_bytes_of-eq (x ∷ xs) (y ∷ ys) h =
    let (e, f) = &&-eq-true (nat_beq x y) (same_bytes_of xs ys) h in
    let head : x ≡ y = ground (arith, e) in
    let tail : xs ≡ ys = same_bytes_of-eq xs ys f in rw (head, tail) refl

pub same_pointer_refl : (p : Pointer) → same_pointer p p ≡ true
same_pointer_refl p =
    ground (arith, text_same p.run_id, same_place_refl p.place, text_same p.digest)

-- A regular file is read whole, and what is read is there.
pub read_regular_file-found :
    (p : Place) (limit : ℕ) (d : Disk) (b : Bytes)
    → entry_at p d ≡ some (regular b)
    → length b ≤ limit
    → read_regular_file p limit d ≡ read (some b)
unfolding read_regular_file read_entry
read_regular_file-found p limit d b found small = rw found (ground arith)

read_entry-some :
    (limit : ℕ) (e : Option Entry) (b : Bytes)
    → read_entry limit e ≡ read (some b)
    → (e ≡ some (regular b)) × (length b ≤ limit)
unfolding read_entry
read_entry-some limit none b h = absurd (cc)
read_entry-some limit (some special) b h = absurd (cc)
read_entry-some limit (some (regular x)) b h = (ground (arith, h), ground (arith, h))

pub read_regular_file-some :
    (p : Place) (limit : ℕ) (d : Disk) (b : Bytes)
    → read_regular_file p limit d ≡ read (some b)
    → (entry_at p d ≡ some (regular b)) × (length b ≤ limit)
unfolding read_regular_file
read_regular_file-some p limit d b h = read_entry-some limit (entry_at p d) b h

read_entry-none : (limit : ℕ) (e : Option Entry) → read_entry limit e ≡ read none → e ≡ none
unfolding read_entry
read_entry-none limit none h = refl
read_entry-none limit (some special) h = absurd (cc)
read_entry-none limit (some (regular x)) h = absurd (ground (arith, h))

pub read_regular_file-none :
    (p : Place) (limit : ℕ) (d : Disk)
    → read_regular_file p limit d ≡ read none
    → entry_at p d ≡ none
unfolding read_regular_file
read_regular_file-none p limit d h = read_entry-none limit (entry_at p d) h

-- A file is read as before where another is replaced.
pub read_regular_file-replace_file_ne :
    (p q : Place) (limit : ℕ) (b : Bytes) (d : Disk)
    → same_place p q ≡ false
    → read_regular_file q limit (replace_file p b d) ≡ read_regular_file q limit d
unfolding read_regular_file
read_regular_file-replace_file_ne p q limit b d h = rw (entry_at-replace_file_ne p q b d h) refl
