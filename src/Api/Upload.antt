-- ===== src/Api/Upload.antt =====
-- The parts of a multipart submission in internal/api/analysis_handler.go: the form they give is within
-- the limit.
use parser_go.Prelude.{
  if◌then◌else◌, ◌-◌, ◌^◌, ℕ, ◌+◌, ◌≤◌, Text, text, text_eq, ◌≡◌, refl, subst, List, [], ◌∷◌, arith,
  length, Option, none, some, ltb, Bool-cases, inl, inr, ◌⊎◌,
}
use parser_go.Api.Http.{Response, Part, Event, part, broken}
use parser_go.Api.Filename.{Verdict, safe, traversal, absolute, validate_filename}
use parser_go.Api.Submit.{
  Form, Step, stop, go, check_size, refused_size, check_name, map_step, read_limited, read_file,
  read_part, read_form, read_multipart_text_field,
}

module _ (F : Type 0) where
  -- What the steps accept is within the limit.
  abbrev pub Accepts : {A : Type 0} → (A → Type 0) → Step F A → Type 0
  Accepts P (stop r) = Unit {0}
  Accepts P (go a) = P a

  abbrev Small : ℕ → Step F Text → Type 0
  Small max = Accepts (λ v. length v ≤ max)

  abbrev pub SmallForm : ℕ → Step F Form → Type 0
  SmallForm max = Accepts (λ f. length f.input_data ≤ max)

  check_size-Small : (max : ℕ) (o : Option Text) → Small max (check_size max o)
  check_size-Small max none = tt
  check_size-Small max (some content) = elim (Bool-cases (ltb max (length content))) [
    | inl t ↦ rw t tt
    | inr f ↦ rw f (ground arith)
  ]

  check_name-Small :
      (max : ℕ) (v : Verdict) (next : Step F Text) → Small max next → Small max (check_name v next)
  check_name-Small max safe next s = s
  check_name-Small max traversal next s = tt
  check_name-Small max absolute next s = tt

  size_limit-Small :
      (max : ℕ) (p : Part)
      → Small max (
          if ltb max (2 ^ 63 - 1)
          then check_size {F = F} max (read_limited (max + 1) p)
          else refused_size max)
  size_limit-Small max p = elim (Bool-cases (ltb max (2 ^ 63 - 1))) [
    | inl t ↦ rw t (check_size-Small max (read_limited (max + 1) p))
    | inr f ↦ rw f tt
  ]

  read_file-Small : (max : ℕ) (p : Part) → Small max (read_file {F = F} max p)
  unfolding read_file
  read_file-Small max p =
      check_name-Small max (validate_filename p.file_name) _ (size_limit-Small max p)

  with_file-Small :
      (max : ℕ) (form : Form) (s : Step F Text)
      → Small max s
      → SmallForm max (map_step (λ v. record form { input_data = v }) s)
  with_file-Small max form (stop r) s = tt
  with_file-Small max form (go v) s = s

  with_field-Small :
      (max : ℕ) (put : Text → Form) (s : Step F Text)
      → ((v : Text) → length (put v).input_data ≤ max)
      → SmallForm max (map_step put s)
  with_field-Small max put (stop r) b = tt
  with_field-Small max put (go v) b = b v

  read_part-Small :
      (max : ℕ) (p : Part) (form : Form)
      → length form.input_data ≤ max
      → SmallForm max (read_part {F = F} max p form)
  unfolding read_part
  read_part-Small max p form b = elim (Bool-cases (text_eq p.form_name (text "file"))) [
    | inl t ↦ rw t (with_file-Small max form (read_file max p) (read_file-Small max p))
    | inr f ↦ rw f (elim (Bool-cases (text_eq p.form_name (text "format"))) [
      | inl t ↦ rw t (with_field-Small max _ (read_multipart_text_field p (text "format")) (λ v. b))
      | inr f ↦ rw f (elim (Bool-cases (text_eq p.form_name (text "profile"))) [
        | inl t ↦
            rw t (with_field-Small max _ (read_multipart_text_field p (text "profile")) (λ v. b))
        | inr f ↦ rw f b
      ])
    ])
  ]

  Step-cases :
      {A : Type 0} (s : Step F A) → ((r : Response F) × (s ≡ stop r)) ⊎ ((a : A) × (s ≡ go a))
  Step-cases (stop r) = inl (r, refl)
  Step-cases (go a) = inr (a, refl)

  pub read_form-Small :
      (max : ℕ) (form : Form) (events : List Event)
      → length form.input_data ≤ max
      → SmallForm max (read_form {F = F} max form events)
  unfolding read_form
  read_form-Small max form [] b = b
  read_form-Small max form (broken ∷ events) b = tt
  read_form-Small max form (part p ∷ events) b = elim (Step-cases (read_part max p form)) [
    | inl (r, e) ↦ rw (e, read_form) tt
    | inr (form', e) ↦
        rw (e, read_form)
          (read_form-Small max form' events
            (subst (SmallForm max) e (read_part-Small max p form b)))
  ]
