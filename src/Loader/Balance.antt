-- ===== src/Loader/Balance.antt =====
-- The states of the parser over whole elements: what an element opens, its end closes.
use Prim.Native.String.{String}
use text.Mathlib.Text.{◌==◌ as str_eq}
use open62541_nodeset_loader.Base.{
  ℕ, ◌+◌, ◌≤◌, ◌≡◌, refl, sym, ap, ◌∙◌, subst, deref, length, arith, Bool, true, false, ◌&&◌, ◌||◌,
  not, List, [], ◌∷◌, ◌++◌, Option, none, some, ltb, if◌then◌else◌, Exec, fault, ret, ◌>>=◌,
  Bool-cases, inl, inr,
}
use open62541_nodeset_loader.Ua.{Ua}
use open62541_nodeset_loader.Arena.{write_user}
use open62541_nodeset_loader.Container.{dec_size}
use open62541_nodeset_loader.Loader.{
  TParserState, init, node, references, namespace_uris, value, extension, extensions,
  data_type_definition, FileContext, Ctx, Event, end_element,
}
use open62541_nodeset_loader.Loader.End.{on_end_element}
use open62541_nodeset_loader.Loader.Start.{class_of, on_start_element}
use open62541_nodeset_loader.Loader.Control.{
  Control, control, at, below, open_in, close_in, opened, closed,
}
use open62541_nodeset_loader.Loader.Ends.{
  EndsUnder, start_ends, end_ends, after_ends, ret_ends, bind_ends,
}
use open62541_nodeset_loader.Loader.Run.{more_room, on_characters, handle, handle_all}
use open62541_nodeset_loader.Loader.Items.{
  Item, Contents, element, plain, nothing, more, events_of, events_in, separate, separate_in,
}

-- What the depths are in a state; the flag says whether an Extension element is open.
unfoldable pub Fits : Bool → TParserState → ℕ → Type 0
Fits inside value v = 1 ≤ v
Fits inside extension v = (v ≡ 0) × (inside ≡ true)
Fits inside _ v = v ≡ 0

-- In a known element: what is opened is closed.
close_open_in :
    (s : TParserState) (v : ℕ) (inside : Bool) (name : String)
    → Fits inside s v
    → (inside && str_eq name "Extension") ≡ false
    → closed (open_in s v name) name ≡ at s v
unfolding Fits closed open_in close_in dec_size
close_open_in init v inside name f h = ground arith
close_open_in node v inside name f h = ground arith
close_open_in value v inside name f h = ground arith
close_open_in extension v inside name f h = ground arith
close_open_in _ v inside name f h = ground arith

abbrev pub Holds : Bool → Control → Type 0
Holds inside c = Fits inside c.state c.value_depth

Holds-if :
    (inside b : Bool) (k1 k2 : Control)
    → Holds inside k1
    → Holds inside k2
    → Holds inside (if b then k1 else k2)
Holds-if inside true k1 k2 h1 h2 = h1
Holds-if inside false k1 k2 h1 h2 = h2

Holds-of_extension :
    (inside b : Bool) (v : ℕ)
    → v ≡ 0
    → Holds (inside || b) (if b then at extension v else below extensions v)
unfolding Fits
Holds-of_extension inside true v h = (h, ground arith)
Holds-of_extension inside false v h = h

Holds-case :
    {A : Type 0} (inside : Bool) (k1 : A → Control) (k2 : Control) (o : Option A)
    → ((a : A) → Holds inside (k1 a))
    → Holds inside k2
    → Holds inside (elim o [ some a ↦ k1 a | none ↦ k2 ])
Holds-case inside k1 k2 (some a) h1 h2 = h1 a
Holds-case inside k1 k2 none h1 h2 = h2

one_le : (v : ℕ) → 1 ≤ v + 1
one_le v = omega arith

Holds-open_in :
    (s : TParserState) (v : ℕ) (inside : Bool) (name : String)
    → Fits inside s v
    → Holds (inside || str_eq name "Extension") (open_in s v name)
unfolding Fits open_in
Holds-open_in init v inside name f =
    Holds-case _ _ _ (class_of name) (λ c. f)
      (Holds-if _ (str_eq name "NamespaceUris") _ _ f (
        Holds-if _ (str_eq name "Alias") _ _ f (
          Holds-if _
            (str_eq name "UANodeSet" || (str_eq name "Aliases" || str_eq name "Extensions")) _ _ f
            f)))
Holds-open_in node v inside name f = Holds-if _ (str_eq name "DisplayName") _ _ f (
    Holds-if _ (str_eq name "References") _ _ f (
      Holds-if _ (str_eq name "Description") _ _ f (
        Holds-if _ (str_eq name "Value") _ _ (one_le v) (
          Holds-if _ (str_eq name "Extensions") _ _ f (
            Holds-if _ (str_eq name "Definition") _ _ f
              (Holds-if _ (str_eq name "InverseName") _ _ f f))))))
Holds-open_in value v inside name f = Holds-if _ (str_eq name "Value") _ _ (one_le v) f
Holds-open_in extension v inside name f = (f.0, ground arith)
Holds-open_in extensions v inside name f = Holds-of_extension inside (str_eq name "Extension") v f
Holds-open_in namespace_uris v inside name f = Holds-if _ (str_eq name "Uri") _ _ f f
Holds-open_in references v inside name f = Holds-if _ (str_eq name "Reference") _ _ f f
Holds-open_in data_type_definition v inside name f = Holds-if _ (str_eq name "Field") _ _ f f
Holds-open_in _ v inside name f = f

Fits-either :
    (s : TParserState) (v : ℕ) (inside b : Bool) → Fits inside s v → Fits (inside || b) s v
unfolding Fits
Fits-either extension v inside b f = (f.0, ground arith)
Fits-either value v inside b f = f
Fits-either _ v inside b f = f

Holds-opened :
    (c : Control) (inside : Bool) (name : String)
    → Holds inside c
    → Holds (inside || str_eq name "Extension") (opened c name)
unfolding opened
Holds-opened c inside name f =
    Holds-if _ (ltb 0 c.unknown_depth) _ _ (Fits-either c.state c.value_depth inside _ f)
      (Holds-open_in c.state c.value_depth inside name f)

closed-opened :
    (c : Control) (inside : Bool) (name : String)
    → Holds inside c
    → (inside && str_eq name "Extension") ≡ false
    → closed (opened c name) name ≡ c
unfolding opened closed
closed-opened c inside name f h = elim (Bool-cases (ltb 0 c.unknown_depth)) [
  | inl deep ↦ ground arith
  | inr level ↦ ground (arith, close_open_in c.state c.value_depth inside name f h)
]

separate_parts :
    (inside : Bool) (name : String) (rest : Bool)
    → (not (inside && str_eq name "Extension") && rest) ≡ true
    → ((inside && str_eq name "Extension") ≡ false) × (rest ≡ true)
separate_parts inside name rest h = ground arith

both : (a b : Bool) → (a && b) ≡ true → (a ≡ true) × (b ≡ true)
both a b h = ground arith

module _ {ua : Ua} {fc : FileContext ua} where
  bind_assoc :
      (e : Exec (Ctx ua fc)) (f g k : Ctx ua fc → Exec (Ctx ua fc))
      → ((a : Ctx ua fc) → f a ≡ (g a >>= k))
      → (e >>= f) ≡ ((e >>= g) >>= k)
  bind_assoc fault f g k h = refl
  bind_assoc (ret a) f g k h = h a

  handle_all-append :
      (first rest : List Event) (pctx : Ctx ua fc)
      → handle_all ua fc (first ++ rest) pctx
        ≡ (handle_all ua fc first pctx >>= λ next. handle_all ua fc rest next)
  unfolding handle_all
  handle_all-append [] rest pctx = refl
  handle_all-append (event ∷ first) rest pctx =
      bind_assoc (handle ua fc event pctx) _ _ _ λ next. handle_all-append first rest next

  ends_at : (k : Control) (e1 e2 : Exec (Ctx ua fc)) → e2 ≡ e1 → EndsUnder k e1 → EndsUnder k e2
  unfolding EndsUnder
  ends_at k e1 e2 q h r z = h r (sym q ∙ z)

  ends_at_control :
      (k1 k2 : Control) (e : Exec (Ctx ua fc)) → k1 ≡ k2 → EndsUnder k1 e → EndsUnder k2 e
  unfolding EndsUnder
  ends_at_control k1 k2 e q h r z = h r z ∙ q

  Holds-at :
      (inside : Bool) (next : Ctx ua fc) (c : Control)
      → control next ≡ c
      → Holds inside c
      → Holds inside (control next)
  Holds-at inside next c q h = subst (λ k. Holds inside k) (sym q) h

  characters_end :
      (ch : List ℕ) (pctx : Ctx ua fc) → EndsUnder (control pctx) (on_characters ua fc pctx ch)
  unfolding on_characters
  characters_end ch pctx =
      bind_ends (control pctx) (more_room pctx.on_characters pctx.nodeset.char_arena (length ch)) _
        λ r. bind_ends (control pctx) (deref r.1) _ λ p.
          bind_ends (control pctx) (write_user r.0 pctx.on_char_length ch) _
            λ arena. ret_ends _ (control pctx) refl

  mutual
    unfolding handle_all handle events_of events_in separate separate_in

    item_ends :
        (item : Item) (inside : Bool) (pctx : Ctx ua fc)
        → separate inside item ≡ true
        → Holds inside (control pctx)
        → EndsUnder (control pctx) (handle_all ua fc (events_of item) pctx)
    item_ends (plain ch) inside pctx h f =
        after_ends (control pctx) (control pctx) (on_characters ua fc pctx ch) _
          (characters_end ch pctx) λ next q. ret_ends next (control pctx) q
    item_ends (element name attributes from contents to) inside pctx h f =
        let parts = separate_parts inside name _ h in
        after_ends (opened (control pctx) name) (control pctx)
          (on_start_element ua fc pctx name attributes from) _
          (start_ends pctx name attributes from)
          λ next h1.
            ends_at (control pctx) _ _
              (handle_all-append (events_in contents) (end_element name to ∷ []) next)
              (after_ends (control next) (control pctx) (handle_all ua fc (events_in contents) next)
                _
                (contents_ends contents (inside || str_eq name "Extension") next parts.1
                  (Holds-at _ next _ h1 (Holds-opened (control pctx) inside name f)))
                λ last h2.
                  after_ends (closed (control last) name) (control pctx)
                    (on_end_element ua fc last name to) _ (end_ends last name to)
                    λ z h3. ret_ends z (control pctx) (
                      h3
                      ∙ (ap (λ k. closed k name) (h2 ∙ h1)
                          ∙ closed-opened (control pctx) inside name f parts.0)))

    contents_ends :
        (contents : Contents) (inside : Bool) (pctx : Ctx ua fc)
        → separate_in inside contents ≡ true
        → Holds inside (control pctx)
        → EndsUnder (control pctx) (handle_all ua fc (events_in contents) pctx)
    contents_ends nothing inside pctx h f = ret_ends pctx (control pctx) refl
    contents_ends (more item contents) inside pctx h f =
        let parts = both (separate inside item) (separate_in inside contents) h in
        ends_at (control pctx) _ _ (handle_all-append (events_of item) (events_in contents) pctx) (
          after_ends (control pctx) (control pctx) (handle_all ua fc (events_of item) pctx) _
            (item_ends item inside pctx parts.0 f)
            λ next h1.
              ends_at_control (control next) (control pctx) _ h1
                (contents_ends contents inside next parts.1 (Holds-at inside next _ h1 f)))

  -- An element is handled from any context that the handlers can be in: if no behaviour that the
  -- language leaves undefined is met, then after its end the parser state, the unknown depth and the
  -- value depth are what they were before it, whatever its name, attributes and contents are,
  -- provided that no element named Extension stands inside another one.
  pub element_balanced :
      (item : Item) (inside : Bool) (pctx last : Ctx ua fc)
      → separate inside item ≡ true
      → Holds inside (control pctx)
      → handle_all ua fc (events_of item) pctx ≡ ret last
      → control last ≡ control pctx
  unfolding EndsUnder
  element_balanced item inside pctx last h f e = item_ends item inside pctx h f last e
