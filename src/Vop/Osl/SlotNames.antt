-- ===== src/Vop/Osl/SlotNames.antt =====
-- The inputs and outputs of an OSL node by name.
use mathlib.Core.Option.{some-injective}
use vray_for_houdini.Base.{
  ℕ, zero, suc, ◌+◌, ◌-◌, ◌<◌, ◌≤◌, ◌≡◌, refl, sym, ◌∙◌, false, List, [], ◌∷◌, ◌++◌, map, none,
  some, ltb, length, get_elem?, All, arith, inl, inr, if_some,
}
use vray_for_houdini.Qt.Text.{QString, same_text, same_text_iff, is_empty}
use vray_for_houdini.Vop.Sockets.{
  SocketDesc, PluginInfo, socket_from_name, label_at, ordered_inputs, max_outputs,
}
use vray_for_houdini.Vop.Osl.Node.{OslNode}
use vray_for_houdini.Vop.Osl.Slots.{
  index_of_name, osl_inputs, osl_outputs, input_label, get_input_name, get_input_from_name,
  get_output_name, get_output_from_name,
}

-- No two names are the same.
abbrev pub Distinct : List QString → Type 0
Distinct [] = Unit
Distinct (s ∷ names) = All (λ t. same_text t s ≡ false) names × Distinct names

All-get :
    {A : Type 0} (P : A → Type 0) (xs : List A) (i : ℕ) (a : A)
    → All P xs
    → get_elem? xs i ≡ some a
    → P a
All-get P [] i a h e = cc
All-get P (x ∷ xs) zero a h e = rw (some-injective x a e) at h.0
All-get P (x ∷ xs) (suc i) a h e = All-get P xs i a h.1 e

get-after :
    {A : Type 0} (xs ys : List A) (i : ℕ) → get_elem? (xs ++ ys) (length xs + i) ≡ get_elem? ys i
get-after [] ys i = let e : 0 + i ≡ i = omega arith in rw e refl
get-after (x ∷ xs) ys i =
    let e : suc (length xs) + i ≡ suc (length xs + i) = omega arith in rw e (get-after xs ys i)

All-front : {A : Type 0} (P : A → Type 0) (xs ys : List A) → All P (xs ++ ys) → All P xs
All-front P [] ys h = tt
All-front P (x ∷ xs) ys h = (h.0, All-front P xs ys h.1)

get_elem?-some :
    {A : Type 0} (xs : List A) (i : ℕ) → i < length xs → (a : A) × (get_elem? xs i ≡ some a)
get_elem?-some [] i h = absurd (omega arith)
get_elem?-some (x ∷ xs) zero h = (x, refl)
get_elem?-some (x ∷ xs) (suc i) h = get_elem?-some xs i (omega arith)

Distinct-append : (xs ys : List QString) → Distinct (xs ++ ys) → Distinct xs × Distinct ys
Distinct-append [] ys h = (tt, h)
Distinct-append (x ∷ xs) ys h =
    let rest = Distinct-append xs ys h.1 in
    ((All-front (λ t. same_text t x ≡ false) xs ys h.0, rest.0), rest.1)

index_of_name_lem :
    (names : List QString) (name : QString) (c i : ℕ)
    → Distinct names
    → get_elem? names c ≡ some name
    → index_of_name name names i ≡ some (i + c)
unfolding index_of_name
index_of_name_lem [] name c i h e = cc
index_of_name_lem (s ∷ names) name zero i h e =
    let same = (same_text_iff name s).1 (sym (some-injective s name e)) in
    let none_more : i + 0 ≡ i = omega arith in rw (same, none_more) refl
index_of_name_lem (s ∷ names) name (suc c) i h e =
    let other = All-get (λ t. same_text t s ≡ false) names c name h.0 e in
    let next : suc i + c ≡ i + suc c = omega arith in
    rw (other, sym next) (index_of_name_lem names name c (suc i) h.1 e)

not_in_front :
    (xs ys : List QString) (name : QString) (c i : ℕ)
    → Distinct (xs ++ ys)
    → get_elem? ys c ≡ some name
    → index_of_name name xs i ≡ none
unfolding index_of_name
not_in_front [] ys name c i h e = refl
not_in_front (x ∷ xs) ys name c i h e =
    let other =
      All-get (λ t. same_text t x ≡ false) (xs ++ ys) (length xs + c) name h.0
        (get-after xs ys c ∙ e) in
    rw (other) (not_in_front xs ys name c (suc i) h.1 e)

socket_from_name_lem :
    (name : QString) (sockets : List SocketDesc) (i : ℕ)
    → socket_from_name name sockets i ≡ index_of_name name (map (λ s. s.socket_label) sockets) i
unfolding socket_from_name index_of_name
socket_from_name_lem name [] i = refl
socket_from_name_lem name (s ∷ sockets) i = rw (socket_from_name_lem name sockets (suc i)) refl

label_at_lem :
    (sockets : List SocketDesc) (i : ℕ)
    → label_at sockets i ≡ get_elem? (map (λ s. s.socket_label) sockets) i
label_at_lem [] i = refl
label_at_lem (s ∷ sockets) zero = refl
label_at_lem (s ∷ sockets) (suc i) = label_at_lem sockets i

module _ {F : Type 0} (info : PluginInfo) where
  -- The names of all inputs of a node.
  abbrev pub input_names : OslNode F → List QString
  input_names n = n.input_list ++ map (λ s. s.socket_label) info.inputs

  from_base :
      (n : OslNode F) (idx : ℕ) (name : QString)
      → Distinct (input_names n)
      → label_at info.inputs idx ≡ some name
      → get_input_from_name info name n ≡ some idx
  unfolding get_input_from_name
  from_base n idx name h e =
      let labels = map (λ (s : SocketDesc). s.socket_label) info.inputs in
      let here = sym (label_at_lem info.inputs idx) ∙ e in
      let front = not_in_front n.input_list labels name idx 0 h here in
      let found =
        index_of_name_lem labels name idx 0 (Distinct-append n.input_list labels h).1 here in
      let from_zero : 0 + idx ≡ idx = omega arith in
      rw (front, get_input_from_name, socket_from_name_lem name info.inputs 0)
        (rw from_zero at found)

  from_code :
      (n : OslNode F) (idx : ℕ) (name : QString)
      → Distinct (input_names n)
      → ordered_inputs info ≤ idx
      → get_elem? n.input_list (idx - ordered_inputs info) ≡ some name
      → get_input_from_name info name n ≡ some idx
  unfolding get_input_from_name
  from_code n idx name h k e =
      let labels = map (λ (s : SocketDesc). s.socket_label) info.inputs in
      let found =
        index_of_name_lem n.input_list name (idx - ordered_inputs info) 0
          (Distinct-append n.input_list labels h).0 e in
      let back : 0 + (idx - ordered_inputs info) + ordered_inputs info ≡ idx = omega arith in
      rw (found, get_input_from_name, back) refl

  -- Where no two inputs have the same name, the name of an input leads back to its index.
  pub get_input_from_name-get_input_name :
      (n : OslNode F) (idx : ℕ) (name : QString)
      → Distinct (input_names n)
      → idx < osl_inputs info n
      → get_input_name info idx n ≡ some name
      → get_input_from_name info name n ≡ some idx
  unfolding get_input_name input_label
  get_input_from_name-get_input_name n idx name h inside e =
      elim (if_some (ltb idx (ordered_inputs info)) e) [
        | inl base ↦ from_base n idx name h base.1
        | inr own ↦
            let k : ordered_inputs info ≤ idx = let tested = own.0 in grind arith in
            let found = get_elem?-some n.input_list (idx - ordered_inputs info) (omega arith) in
            let label = rw (own.0, found.1) at own.1 in from_code n idx name h k (found.1 ∙ label)
      ]

  -- The output of the code has the name of the index after the plugin's outputs, but its name gives
  -- the index after that, which is no output.
  pub get_output_from_name_lem :
      (n : OslNode F)
      → is_empty n.output_name ≡ false
      → (get_output_name info (max_outputs info) n ≡ some n.output_name)
        × (get_output_from_name info n.output_name n ≡ some (suc (max_outputs info)))
        × (osl_outputs info n ≡ suc (max_outputs info))
  unfolding get_output_name get_output_from_name
  get_output_from_name_lem n e =
      let same = (same_text_iff n.output_name n.output_name).1 refl in ground (arith, same)
