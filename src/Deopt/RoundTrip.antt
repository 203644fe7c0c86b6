-- ===== src/Deopt/RoundTrip.antt =====
-- What the compiler records at a patch point (`Call::compileExpression` of src/compiler.cc), and
-- what the reconstruction of src/interpreter.cc reads back from the stack map.
use Prim.Native.String.{String}
use mathlib.Core.List.{append-nil}
use text.Mathlib.TextEquality.{eq_iff}
use l25_mysorescript_deoptim.Prelude.{
  ℕ, suc, ◌+◌, ◌≡◌, ◌≤◌, ◌<◌, refl, ◌∙◌, some, List, [], ◌∷◌, ◌++◌, map, arith, length,
  if◌then◌else◌,
}
use l25_mysorescript_deoptim.Prelude.Table.{
  lookup, insert, lookup-insert, contains, contains-append,
}
use l25_mysorescript_deoptim.StackMap.{Memory, read16, location_size, num_locs, locs}
use l25_mysorescript_deoptim.StackMap.Record.{
  SmRecordParser, open_record, advance, next_value, location_at, HasValues, next_value-HasValues,
  next_value-first,
}
use l25_mysorescript_deoptim.Machine.{SymbolTable}
use l25_mysorescript_deoptim.Deopt.{
  symbol_or_null, stackmap_args, read_symbols, read_variables, Header, read_header,
}

-- The table with the entries of the compiler for each name, the later ones in front.
unfoldable pub copied : SymbolTable → List String → SymbolTable → SymbolTable
copied symbols [] t = t
copied symbols (name ∷ names) t = copied symbols names (insert name (symbol_or_null symbols name) t)

module _ (m : Memory) (symbols : SymbolTable) where
  read_symbols-step :
      (name : String) (names : List String) (t : SymbolTable) (v : ℕ) (r r' : SmRecordParser)
      → next_value m r ≡ some (v, r')
      → read_symbols m (name ∷ names) t r ≡ read_symbols m names (insert name v t) r'
  unfolding read_symbols
  read_symbols-step name names t v r r' e = rw (e, read_symbols) refl

  read_symbols-copied :
      (names : List String) (t : SymbolTable) (more : List ℕ) (r : SmRecordParser)
      → 0 < r.records_retrieved
      → r.records_retrieved + length (map (symbol_or_null symbols) names ++ more) ≤ r.num_locations
      → HasValues m r.registers_start r.position (map (symbol_or_null symbols) names ++ more)
      → (r' : SmRecordParser) × (read_symbols m names t r ≡ some (copied symbols names t, r'))
        × (0 < r'.records_retrieved)
        × (r'.records_retrieved + length more ≤ r'.num_locations)
        × HasValues m r'.registers_start r'.position more
  unfolding read_symbols copied advance
  read_symbols-copied [] t more r pos len h = (r, refl, pos, len, h)
  read_symbols-copied (name ∷ names) t more r pos len h =
      let (r', e, p, l, g) =
        read_symbols-copied names (insert name (symbol_or_null symbols name) t) more (advance r)
          (omega arith) (omega (arith, len)) h.1 in
      let n = next_value-HasValues m r (symbol_or_null symbols name) pos (omega (arith, len)) h.0 in
      (r', read_symbols-step name names t _ r (advance r) n ∙ e, p, l, g)

  read_variables-copied :
      (params decls bound : List String) (t : SymbolTable) (r : SmRecordParser)
      → 0 < r.records_retrieved
      → r.records_retrieved
          + length (
              map (symbol_or_null symbols) params
              ++ (map (symbol_or_null symbols) decls ++ map (symbol_or_null symbols) bound))
        ≤ r.num_locations
      → HasValues m r.registers_start r.position (
          map (symbol_or_null symbols) params
          ++ (map (symbol_or_null symbols) decls ++ map (symbol_or_null symbols) bound))
      → (r' : SmRecordParser) × (read_variables m params decls bound t r
          ≡ some (copied symbols bound (copied symbols decls (copied symbols params t)), r'))
  unfolding read_variables
  read_variables-copied params decls bound t r pos len h =
      let (r₁, e₁, p₁, l₁, h₁) = read_symbols-copied params t _ r pos len h in
      let (r₂, e₂, p₂, l₂, h₂) =
        read_symbols-copied decls (copied symbols params t) _ r₁ p₁ l₁ h₁ in
      let (r₃, e₃, _, _, _) =
        read_symbols-copied bound (copied symbols decls (copied symbols params t)) [] r₂ p₂
          (rw (append-nil (map (symbol_or_null symbols) bound)) l₂)
          (rw (append-nil (map (symbol_or_null symbols) bound)) h₂) in
      (r₃, rw (e₁, read_variables, e₂) e₃)

lookup-copied :
    (x : String) (symbols : SymbolTable) (names : List String) (t : SymbolTable)
    → lookup x (copied symbols names t)
      ≡ (if contains names x then some (symbol_or_null symbols x) else lookup x t)
unfolding copied contains
lookup-copied x symbols [] t = refl
lookup-copied x symbols (name ∷ names) t =
    lookup-copied x symbols names (insert name (symbol_or_null symbols name) t)
    ∙ ground (arith, eq_iff name x, lookup-insert name x (symbol_or_null symbols name) t)

abbrev pub header_of : ℕ → ℕ → SymbolTable → Header
header_of reg node symbols = record {
  return_reg = reg;
  resume_node = node;
  self = symbol_or_null symbols "self";
  cmd = symbol_or_null symbols "cmd";
}

read_header-lem :
    (m : Memory) (a b c d : ℕ) (r r₁ r₂ r₃ r₄ : SmRecordParser)
    → next_value m r ≡ some (a, r₁)
    → next_value m r₁ ≡ some (b, r₂)
    → next_value m r₂ ≡ some (c, r₃)
    → next_value m r₃ ≡ some (d, r₄)
    → read_header m r ≡ some (record { return_reg = a; resume_node = b; self = c; cmd = d }, r₄)
unfolding read_header
read_header-lem m a b c d r r₁ r₂ r₃ r₄ e f g h = rw (e, read_header, f, g, h) refl

-- The reconstruction reads back what the compiler recorded. For a record of the stack map whose
-- locations after the first stand for the arguments of the patch point, the header is the register
-- of the first location, the node to resume at, and the storage of `self` and `cmd`; and then
-- the table has, for each parameter, local variable and bound variable, the address that the
-- compiler had for it, null where it had none, and is unchanged for each other name.
pub read_variables-stackmap_args :
    (m : Memory) (rec_base registers_start node : ℕ) (symbols : SymbolTable)
    (params decls bound : List String) (t : SymbolTable)
    → read16 m (rec_base + num_locs) ≡ suc (length (stackmap_args node symbols params decls bound))
    → HasValues m registers_start
        (rec_base + locs + location_size)
        (stackmap_args node symbols params decls bound)
    → (r r' : SmRecordParser) × (t' : SymbolTable) × (read_header m
          (open_record m rec_base registers_start)
        ≡ some (header_of (location_at m (rec_base + locs)).regnum node symbols, r))
      × (read_variables m params decls bound t r ≡ some (t', r'))
      × ((x : String)
          → lookup x t' ≡ (
              if contains (params ++ (decls ++ bound)) x
              then some (symbol_or_null symbols x)
              else lookup x t))
unfolding stackmap_args open_record advance
read_variables-stackmap_args m rec_base registers_start node symbols params decls bound t n h =
    let start = open_record m rec_base registers_start in
    let r₁ = advance start in
    let first = next_value-first m rec_base registers_start (omega (arith, n)) in
    let e₁ = next_value-HasValues m r₁ node (omega arith) (omega (arith, n)) h.0 in
    let e₂ = next_value-HasValues m (advance r₁) _ (omega arith) (omega (arith, n)) h.1.0 in
    let e₃ =
      next_value-HasValues m (advance (advance r₁)) _ (omega arith) (omega (arith, n)) h.1.1.0 in
    let r = advance (advance (advance r₁)) in
    let (r', e) =
      read_variables-copied m symbols params decls bound t r (omega arith) (omega (arith, n))
        h.1.1.1 in
    (
      r,
      r',
      copied symbols bound (copied symbols decls (copied symbols params t)),
      read_header-lem m _ _ _ _ start _ _ _ _ first e₁ e₂ e₃,
      e,
      λ x. ground (
        arith,
        contains-append params (decls ++ bound) x,
        contains-append decls bound x,
        lookup-copied x symbols bound (copied symbols decls (copied symbols params t)),
        lookup-copied x symbols decls (copied symbols params t),
        lookup-copied x symbols params t,
      ),
    )
