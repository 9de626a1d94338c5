-- ===== src/Loader/Ends.antt =====
-- The handlers of src/NodesetLoader.c end under the control that Loader.Control computes.
use Prim.Native.String.{String}
use text.Mathlib.Text.{◌==◌ as str_eq}
use open62541_nodeset_loader.Base.{
  ℕ, ◌-◌, ◌≡◌, refl, ap, ◌∙◌, arith, Bool, true, false, ◌||◌, List, Option, none, some, ltb, ◌==◌,
  if◌then◌else◌, Exec, fault, ret, ◌>>=◌,
}
use open62541_nodeset_loader.Ua.{Ua}
use open62541_nodeset_loader.Container.{dec_size}
use open62541_nodeset_loader.Loader.{
  TParserState, init, node, display_name, references, reference, description, inverse_name,
  namespace_uris, uri, value, extension, extensions, data_type_definition,
  data_type_definition_field, FileContext, Ctx, reset, unknown, the_node, collected,
}
use open62541_nodeset_loader.Loader.Start.{
  class_of, on_start_element, start_in, start_init, start_node, start_definition, start_extensions,
  start_extension, start_references,
}
use open62541_nodeset_loader.Loader.End.{
  on_end_element, end_in, end_value, end_extension, store_value, store_if_variable, store_into,
  leave_value, is_variable, value_text, set_value,
}
use open62541_nodeset_loader.Loader.Control.{
  Control, control, at, open_in, close_in, opened, closed,
}

by_zero : (n : ℕ) → ltb 0 n ≡ false → n ≡ 0
by_zero n h = ground arith

abbrev closed_value : Control → Control
closed_value c = record c { state = node }

module _ {ua : Ua} {fc : FileContext ua} where
  -- An execution that can only end under the given control.
  unfoldable pub EndsUnder : Control → Exec (Ctx ua fc) → Type 0
  EndsUnder k e = (pctx : Ctx ua fc) → e ≡ ret pctx → control pctx ≡ k

  pub ret_ends : (pctx : Ctx ua fc) (k : Control) → control pctx ≡ k → EndsUnder k (ret pctx)
  unfolding EndsUnder
  ret_ends pctx k h r e = cc

  pub bind_ends :
      {A : Type 0} (k : Control) (e : Exec A) (f : A → Exec (Ctx ua fc))
      → ((a : A) → EndsUnder k (f a))
      → EndsUnder k (e >>= f)
  unfolding EndsUnder
  bind_ends k fault f h r q = cc
  bind_ends k (ret a) f h r q = h a r q

  if_ends :
      (b : Bool) (k1 k2 : Control) (e1 e2 : Exec (Ctx ua fc))
      → EndsUnder k1 e1
      → EndsUnder k2 e2
      → EndsUnder (if b then k1 else k2) (if b then e1 else e2)
  if_ends true k1 k2 e1 e2 h1 h2 = h1
  if_ends false k1 k2 e1 e2 h1 h2 = h2

  either_ends :
      (b : Bool) (k : Control) (e1 e2 : Exec (Ctx ua fc))
      → EndsUnder k e1
      → EndsUnder k e2
      → EndsUnder k (if b then e1 else e2)
  either_ends true k e1 e2 h1 h2 = h1
  either_ends false k e1 e2 h1 h2 = h2

  case_ends :
      {A : Type 0} (o : Option A) (k1 : A → Control) (k2 : Control) (e1 : A → Exec (Ctx ua fc))
      (e2 : Exec (Ctx ua fc))
      → ((a : A) → EndsUnder (k1 a) (e1 a))
      → EndsUnder k2 e2
      → EndsUnder (elim o [ some a ↦ k1 a | none ↦ k2 ]) (elim o [ some a ↦ e1 a | none ↦ e2 ])
  case_ends (some a) k1 k2 e1 e2 h1 h2 = h1 a
  case_ends none k1 k2 e1 e2 h1 h2 = h2

  pub after_ends :
      (j k : Control) (e : Exec (Ctx ua fc)) (f : Ctx ua fc → Exec (Ctx ua fc))
      → EndsUnder j e
      → ((pctx : Ctx ua fc) → control pctx ≡ j → EndsUnder k (f pctx))
      → EndsUnder k (e >>= f)
  unfolding EndsUnder
  after_ends j k fault f h1 h2 r q = cc
  after_ends j k (ret a) f h1 h2 r q = h2 a (h1 a refl) r q

  store_into_ends :
      (pctx : Ctx ua fc) (cur : ℕ) (p : _) → EndsUnder (control pctx) (store_into ua fc pctx cur p)
  unfolding store_into
  store_into_ends pctx cur p =
      bind_ends (control pctx)
        (value_text ua fc pctx.buf pctx.value_begin cur >>= set_value ua fc (pctx.nodeset.heap p)) _
        λ stored. ret_ends _ (control pctx) refl

  store_if_variable_ends :
      (pctx : Ctx ua fc) (cur : ℕ) (p : _)
      → EndsUnder (control pctx) (store_if_variable ua fc pctx cur p)
  unfolding store_if_variable
  store_if_variable_ends pctx cur p =
      either_ends (is_variable ua fc (pctx.nodeset.heap p).node_class) (control pctx) _ _
        (store_into_ends pctx cur p) (ret_ends pctx (control pctx) refl)

  store_value_ends :
      (pctx : Ctx ua fc) (cur : ℕ) → EndsUnder (control pctx) (store_value ua fc pctx cur)
  unfolding store_value
  store_value_ends pctx cur =
      bind_ends (control pctx) (the_node pctx) _ λ p. store_if_variable_ends pctx cur p

  leave_value_ends :
      (pctx : Ctx ua fc) (cur : ℕ)
      → pctx.state ≡ value
      → pctx.unknown_depth ≡ 0
      → EndsUnder
          (if pctx.value_depth == 0 then at node pctx.value_depth else at value pctx.value_depth)
          (leave_value ua fc pctx cur)
  unfolding leave_value
  leave_value_ends pctx cur q u =
      if_ends (pctx.value_depth == 0) (at node pctx.value_depth) (at value pctx.value_depth)
        (store_value ua fc pctx cur >>= λ stored. ret (reset (record stored { state = node })))
        (ret (reset pctx))
        (after_ends (control pctx) (at node pctx.value_depth) (store_value ua fc pctx cur) _
          (store_value_ends pctx cur)
          λ stored h.
            ret_ends (reset (record stored { state = node })) (at node pctx.value_depth)
              (ap closed_value h ∙ cc))
        (ret_ends (reset pctx) (at value pctx.value_depth) cc)

  -- In a known element.
  pub start_in_ends :
      (s : TParserState) (pctx : Ctx ua fc) (name : String) (attributes : List _) (cur : ℕ)
      → pctx.state ≡ s
      → pctx.unknown_depth ≡ 0
      → EndsUnder (open_in s pctx.value_depth name) (start_in ua fc s pctx name attributes cur)
  unfolding open_in start_in start_init start_node start_definition start_extensions start_extension
      start_references
  start_in_ends data_type_definition pctx name attributes cur q u =
      if_ends (str_eq name "Field") _ _ _ _ (bind_ends _ _ _ λ nodeset. ret_ends _ _ cc)
        (ret_ends _ _ (grind arith))
  start_in_ends namespace_uris pctx name attributes cur q u =
      if_ends (str_eq name "Uri") _ _ _ _ (ret_ends _ _ cc) (ret_ends _ _ (grind arith))
  start_in_ends references pctx name attributes cur q u =
      if_ends (str_eq name "Reference") _ _ _ _ (bind_ends _ _ _ λ r. ret_ends _ _ cc)
        (ret_ends _ _ (grind arith))
  start_in_ends value pctx name attributes cur q u =
      if_ends (str_eq name "Value") _ _ _ _ (ret_ends _ _ cc) (ret_ends _ _ cc)
  start_in_ends extension pctx name attributes cur q u =
      either_ends fc.ext_if _ _ _ (ret_ends _ _ cc) (ret_ends _ _ cc)
  start_in_ends extensions pctx name attributes cur q u =
      if_ends (str_eq name "Extension") _ _ _ _
        (either_ends fc.ext_if _ _ _ (ret_ends _ _ cc) (ret_ends _ _ cc))
        (ret_ends _ _ (grind arith))
  start_in_ends init pctx name attributes cur q u =
      case_ends (class_of name) _ _ _ _ (λ c. bind_ends _ _ _ λ r. ret_ends _ _ cc)
        (if_ends (str_eq name "NamespaceUris") _ _ _ _ (ret_ends _ _ cc) (
          if_ends (str_eq name "Alias") _ _ _ _ (bind_ends _ _ _ λ r. ret_ends _ _ cc) (
            if_ends (str_eq name "UANodeSet" || (str_eq name "Aliases" || str_eq name "Extensions"))
              _ _ _ _ (ret_ends _ _ cc) (ret_ends _ _ (grind arith)))))
  start_in_ends node pctx name attributes cur q u =
      if_ends (str_eq name "DisplayName") _ _ _ _ (bind_ends _ _ _ λ p. ret_ends _ _ cc) (
        if_ends (str_eq name "References") _ _ _ _ (ret_ends _ _ cc) (
          if_ends (str_eq name "Description") _ _ _ _ (bind_ends _ _ _ λ p. ret_ends _ _ cc) (
            if_ends (str_eq name "Value") _ _ _ _ (bind_ends _ _ _ λ p. ret_ends _ _ cc) (
              if_ends (str_eq name "Extensions") _ _ _ _ (ret_ends _ _ cc) (
                if_ends (str_eq name "Definition") _ _ _ _ (bind_ends _ _ _ λ p. ret_ends _ _ cc) (
                  if_ends (str_eq name "InverseName") _ _ _ _ (bind_ends _ _ _ λ p. ret_ends _ _ cc)
                    (ret_ends _ _ (grind arith))))))))
  start_in_ends _ pctx name attributes cur q u = ret_ends _ _ (grind arith)

  -- At an end tag.
  pub end_in_ends :
      (s : TParserState) (pctx : Ctx ua fc) (name : String) (cur : ℕ)
      → pctx.state ≡ s
      → pctx.unknown_depth ≡ 0
      → EndsUnder (close_in s pctx.value_depth name) (end_in ua fc s pctx name cur)
  unfolding close_in end_in end_value end_extension dec_size
  end_in_ends value pctx name cur q u =
      if_ends (str_eq name "Value") _ _ _ _
        (leave_value_ends (record pctx { value_depth = dec_size pctx.value_depth }) cur q u)
        (ret_ends (reset pctx) _ cc)
  end_in_ends extension pctx name cur q u =
      if_ends (str_eq name "Extension") _ _ _ _
        (either_ends fc.ext_if _ _ _ (bind_ends _ _ _ λ p. ret_ends _ _ cc) (ret_ends _ _ cc))
        (either_ends fc.ext_if _ _ _ (bind_ends _ _ _ λ text. ret_ends _ _ cc) (ret_ends _ _ cc))
  end_in_ends uri pctx name cur q u = bind_ends _ _ _ λ r. ret_ends _ _ cc
  end_in_ends namespace_uris pctx name cur q u = ret_ends _ _ cc
  end_in_ends node pctx name cur q u = ret_ends _ _ cc
  end_in_ends references pctx name cur q u = ret_ends _ _ cc
  end_in_ends extensions pctx name cur q u = ret_ends _ _ cc
  end_in_ends init pctx name cur q u = ret_ends _ _ cc
  end_in_ends data_type_definition pctx name cur q u = ret_ends _ _ cc
  end_in_ends data_type_definition_field pctx name cur q u = ret_ends _ _ cc
  end_in_ends TParserState.alias pctx name cur q u = bind_ends _ _ _ λ r. ret_ends _ _ cc
  end_in_ends display_name pctx name cur q u =
      bind_ends _ (the_node pctx) _ λ p. bind_ends _ (collected pctx) _ λ text. ret_ends _ _ cc
  end_in_ends reference pctx name cur q u = bind_ends _ _ _ λ r. ret_ends _ _ cc
  end_in_ends description pctx name cur q u =
      bind_ends _ (the_node pctx) _ λ p. bind_ends _ (collected pctx) _ λ text. ret_ends _ _ cc
  end_in_ends inverse_name pctx name cur q u = bind_ends _ _ _ λ r. ret_ends _ _ cc

  if_ends_by :
      (b : Bool) (k1 k2 : Control) (e1 e2 : Exec (Ctx ua fc))
      → (b ≡ true → EndsUnder k1 e1)
      → (b ≡ false → EndsUnder k2 e2)
      → EndsUnder (if b then k1 else k2) (if b then e1 else e2)
  if_ends_by true k1 k2 e1 e2 h1 h2 = h1 refl
  if_ends_by false k1 k2 e1 e2 h1 h2 = h2 refl

  pub start_ends :
      (pctx : Ctx ua fc) (name : String) (attributes : List _) (cur : ℕ)
      → EndsUnder (opened (control pctx) name) (on_start_element ua fc pctx name attributes cur)
  unfolding opened on_start_element
  start_ends pctx name attributes cur =
      if_ends_by (ltb 0 pctx.unknown_depth) _ _ _ _ (λ h. ret_ends (unknown pctx) _ refl)
        (λ h. start_in_ends pctx.state pctx name attributes cur refl (by_zero pctx.unknown_depth h))

  pub end_ends :
      (pctx : Ctx ua fc) (name : String) (cur : ℕ)
      → EndsUnder (closed (control pctx) name) (on_end_element ua fc pctx name cur)
  unfolding closed on_end_element
  end_ends pctx name cur =
      if_ends_by (ltb 0 pctx.unknown_depth) _ _ _ _
        (λ h. ret_ends (record pctx { unknown_depth = pctx.unknown_depth - 1 }) _ refl)
        (λ h. end_in_ends pctx.state pctx name cur refl (by_zero pctx.unknown_depth h))
