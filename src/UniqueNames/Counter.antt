-- ===== src/UniqueNames/Counter.antt =====
-- The counter counts, so no name comes twice.
use native.Mathlib.Nat.{pow-succ', suc-mul}
use libre_connect.Base.{
  length-append, ℕ, zero, suc, ◌+◌, ◌-◌, ◌*◌, ◌^◌, ◌≤◌, ◌<◌, ◌≡◌, ◌≢◌, refl, sym, ap, ◌∙◌, Bool,
  true, false, List, [], ◌∷◌, ◌++◌, append_assoc, append-nil, length, take, ltb, All, arith,
  Bool-cases, inl, inr, ltb→lt, ltb→le, drop_all, append_left_cancel, subst, Option, some,
  take-append,
}
use libre_connect.Wire.Text.{Text}
use libre_connect.UniqueNames.{
  Generator, stem, increment, carry_into, insert_one, next_content, read_content, write_content,
  get_unique_name,
}

abbrev pub IsDigit : ℕ → Type 0
IsDigit c = (48 ≤ c) × (c ≤ 57)

-- The number that a text of digits stands for.
abbrev pub value : Text → ℕ
value [] = 0
value (c ∷ cs) = (c - 48) * 10 ^ length cs + value cs

-- What the loop gives: a carry stands for one more digit in front.
abbrev carried : Bool × Text → ℕ
carried (true, cs) = 10 ^ length cs + value cs
carried (false, cs) = value cs

record IsNext (cs : Text) (r : Bool × Text) : Type 0 where
  counts : carried r ≡ value cs + 1
  same_length : length r.1 ≡ length cs
  digits : All IsDigit r.1

carry_into-IsNext :
    (c : ℕ) (cs : Text) (r : Bool × Text)
    → IsDigit c
    → IsNext cs r
    → IsNext (c ∷ cs) (carry_into c r)
unfolding carry_into
carry_into-IsNext c cs (true, ds) d n = elim (Bool-cases (ltb c 57)) [
  | inl small ↦
      let e : c + 1 - 48 ≡ suc (c - 48) = omega (arith, d.0) in
      rw small (record {
        counts =
            ap (λ (i : ℕ). i * 10 ^ length ds + value ds) e
            ∙ ap (λ (i : ℕ). i + value ds) (suc-mul (c - 48) (10 ^ length ds))
            ∙ omega (arith, n.counts, ap (λ (i : ℕ). (c - 48) * 10 ^ i) n.same_length);
        same_length = ap suc n.same_length;
        digits = ((omega (arith, d.0), omega (arith, ltb→lt c 57 small)), n.digits);
      })
  | inr nine ↦
      let e : c - 48 ≡ 9 = omega (arith, d, ltb→le c 57 nine) in
      rw nine (record {
        counts = omega (
          arith,
          n.counts,
          pow-succ' 10 (length ds),
          ap (λ (i : ℕ). i * 10 ^ length cs) e,
          ap (λ (i : ℕ). 10 ^ i) n.same_length,
        );
        same_length = ap suc n.same_length;
        digits = ((omega arith, omega arith), n.digits);
      })
]
carry_into-IsNext c cs (false, ds) d n = record {
  counts = omega (arith, n.counts, ap (λ (i : ℕ). (c - 48) * 10 ^ i) n.same_length);
  same_length = ap suc n.same_length;
  digits = (d, n.digits);
}

increment-IsNext : (cs : Text) → All IsDigit cs → IsNext cs (increment cs)
unfolding increment
increment-IsNext [] h = record { counts = refl; same_length = refl; digits = tt }
increment-IsNext (c ∷ cs) h = carry_into-IsNext c cs (increment cs) h.0 (increment-IsNext cs h.1)

insert_one-value :
    (r : Bool × Text)
    → All IsDigit r.1
    → (value (insert_one r) ≡ carried r)
      × (All IsDigit (insert_one r) × (length r.1 ≤ length (insert_one r)))
unfolding insert_one
insert_one-value (true, cs) h = (omega arith, (((omega arith, omega arith), h), omega arith))
insert_one-value (false, cs) h = (refl, (h, omega arith))

-- The text of digits that follows another one stands for the next number, whatever carries occur; it
-- consists of digits again and is not shorter.
pub next_content_lem :
    (cs : Text)
    → All IsDigit cs
    → (value (next_content cs) ≡ value cs + 1)
      × (All IsDigit (next_content cs) × (length cs ≤ length (next_content cs)))
next_content_lem cs h =
    let n = increment-IsNext cs h in
    let (v, (d, l)) = insert_one-value (increment cs) n.digits in
    (v ∙ n.counts, (d, omega (arith, n.same_length)))

read_content-IsDigit : (file : Text) → All IsDigit file → All IsDigit (read_content (some file))
unfolding read_content
read_content-IsDigit [] h = ((omega arith, omega arith), tt)
read_content-IsDigit (c ∷ cs) h = h

length-read_content : (file : Text) → length file ≤ length (read_content (some file))
unfolding read_content
length-read_content [] = omega arith
length-read_content (c ∷ cs) = omega arith

read_content-next : (cs : Text) → 1 ≤ length cs → read_content (some cs) ≡ cs
unfolding read_content
read_content-next [] h = absurd (omega arith)
read_content-next (c ∷ cs) h = refl

length-read_pos : (file : Text) → 1 ≤ length (read_content (some file))
unfolding read_content
length-read_pos [] = omega arith
length-read_pos (c ∷ cs) = omega arith

-- The number of the next name.
abbrev pub count : Generator → ℕ
count g = value (read_content g.unique_names_file)

-- A stream that is open on digits.
pub record IsOpen (g : Generator) : Type 0 where
  pub file : Text
  pub is_file : g.unique_names_file ≡ some file
  pub digits : All IsDigit file

-- What one call does to the counter.
record IsCounted (g g' : Generator) : Type 0 where
  is_open : IsOpen g'
  counted : count g' ≡ count g + 1
  same_stem : stem g' ≡ stem g
  same_suffix : g'.suffix ≡ g.suffix

-- The content that a call writes is the next one, with no rest of the old one behind it.
written :
    (file : Text)
    → All IsDigit file
    → write_content (next_content (read_content (some file))) (some file)
      ≡ some (next_content (read_content (some file)))
unfolding write_content
written file h =
    let content = read_content (some file) in
    let (v, (d, l)) = next_content_lem content (read_content-IsDigit file h) in
    ap (λ (rest : Text). some (next_content content ++ rest))
      (drop_all (length (next_content content)) file (omega (arith, length-read_content file)))
    ∙ ap some (append-nil (next_content content))

get_unique_name-IsCounted : (g : Generator) → IsOpen g → IsCounted g (get_unique_name g).1
unfolding get_unique_name
get_unique_name-IsCounted g o =
    let content = read_content (some o.file) in
    let (v, (d, l)) = next_content_lem content (read_content-IsDigit o.file o.digits) in
    let whole : write_content (next_content (read_content g.unique_names_file)) g.unique_names_file
        ≡ some (next_content content) =
      ap (λ (f : Option Text). write_content (next_content (read_content f)) f) o.is_file
      ∙ written o.file o.digits in
    record {
      is_open = record { file = next_content content; is_file = whole; digits = d };
      counted =
          ap (λ (f : Option Text). value (read_content f)) whole
          ∙ ap value
              (read_content-next (next_content content) (omega (arith, length-read_pos o.file, l)))
          ∙ v
          ∙ ap (λ (f : Option Text). value (read_content f) + 1) (sym o.is_file);
      same_stem = refl;
      same_suffix = refl;
    }

-- The names of that many calls.
abbrev pub names : ℕ → Generator → List Text
names zero g = []
names (suc n) g = (get_unique_name g).0 ∷ names n (get_unique_name g).1

abbrev pub Distinct : List Text → Type 0
Distinct [] = Unit
Distinct (x ∷ xs) = All (λ y. x ≢ y) xs × Distinct xs

-- A name with a number from n on.
record IsNamed (before suffix : Text) (n : ℕ) (name : Text) : Type 0 where
  content : Text
  form : name ≡ (before ++ content) ++ suffix
  number : n ≤ value content

names-IsNamed :
    (k n : ℕ) (g : Generator) (before suffix : Text)
    → stem g ≡ before
    → g.suffix ≡ suffix
    → IsOpen g
    → n ≤ count g
    → All (IsNamed before suffix n) (names k g)
names-IsNamed zero n g before suffix s x h l = tt
names-IsNamed (suc k) n g before suffix s x h l =
    let c = get_unique_name-IsCounted g h in
    (
      record {
        content = read_content g.unique_names_file;
        form = unfold get_unique_name in (λ i. (s i ++ read_content g.unique_names_file) ++ x i);
        number = l;
      },
      names-IsNamed k n (get_unique_name g).1 before suffix (c.same_stem ∙ s) (c.same_suffix ∙ x)
          c.is_open (omega (arith, c.counted)),
    )

same_content :
    (before suffix c d : Text) → (before ++ c) ++ suffix ≡ (before ++ d) ++ suffix → c ≡ d
same_content before suffix c d e =
    let e' : c ++ suffix ≡ d ++ suffix =
      append_left_cancel before (c ++ suffix) before (d ++ suffix) refl
        (sym (append_assoc before c suffix) ∙ e ∙ append_assoc before d suffix) in
    sym (take-append (length c) c suffix refl)
    ∙ ap (take (length c)) e'
    ∙ take-append (length c) d suffix
        (omega (arith, ap length e', length-append c suffix, length-append d suffix))

differ :
    (before suffix content : Text) (n : ℕ) (xs : List Text)
    → value content < n
    → All (IsNamed before suffix n) xs
    → All (λ y. (before ++ content) ++ suffix ≢ y) xs
differ before suffix content n [] h a = tt
differ before suffix content n (x ∷ xs) h a = (
  λ e.
      let same = same_content before suffix content a.0.content (e ∙ a.0.form) in
      omega (arith, ap value same, a.0.number),
  differ before suffix content n xs h a.1,
)

-- While the stream is open on a counter file of digits, whatever these are, or of none at all, the names
-- of any number of calls in a row are all different: no carry, no growth of the number and no rest of
-- the old file content repeats one.
pub names-Distinct :
    (k : ℕ) (g : Generator) (file : Text)
    → g.unique_names_file ≡ some file
    → All IsDigit file
    → Distinct (names k g)
names-Distinct k g file e h = open_names k g (record { file = file; is_file = e; digits = h })
  where
    open_names : (k : ℕ) (g : Generator) → IsOpen g → Distinct (names k g)
    open_names zero g o = tt
    open_names (suc k) g o =
        let c = get_unique_name-IsCounted g o in
        let name : (stem g ++ read_content g.unique_names_file) ++ g.suffix
            ≡ (get_unique_name g).0 =
          unfold get_unique_name in refl in
        (
          subst (λ (t : Text). All (λ y. t ≢ y) (names k (get_unique_name g).1)) name
              (differ (stem g) g.suffix (read_content g.unique_names_file) (count g + 1)
                (names k (get_unique_name g).1) (omega arith)
                (names-IsNamed k (count g + 1) (get_unique_name g).1 (stem g) g.suffix c.same_stem
                  c.same_suffix c.is_open (omega (arith, c.counted)))),
          open_names k (get_unique_name g).1 c.is_open,
        )
