-- ===== src/Report/ByName.antt =====
-- The report of memapi/src/memorytracking.rs with the callstacks for their ids.
use mathlib.Core.List.{map}
use filprofiler.Base.{
  ℕ, ◌≡◌, ◌≢◌, ◌∙◌, sym, ap, refl, List, [], ◌∷◌, ◌++◌, Bool, Option-cases, inl, inr, lookup, some,
  none, ltb→lt, if_pos, if_neg, arith, done, ℕ_discrete,
}
use filprofiler.HashMap.{HashMap, IsUnique}
use filprofiler.Callstack.{Callstack, Callstack-discrete}
use filprofiler.Interner.{CallstackInterner, get_reverse_map}
use filprofiler.Interner.Numbering.{IsNumbered, id_of}
use filprofiler.Interner.Reverse.{get_reverse_map_iff}
use filprofiler.Interner.Extension.{name_of}
use filprofiler.Text.{Memory, text, decimal, as_string}
use filprofiler.Report.{to_line, map_lines}
use filprofiler.Report.Names.{KeysBelow}

-- The entries by callstack.
abbrev pub by_callstack : CallstackInterner → HashMap ℕ ℕ → HashMap Callstack ℕ
by_callstack i [] = []
by_callstack i ((id, bytes) ∷ es) = elim (name_of i id) [
  | none ↦ by_callstack i es
  | some cs ↦ (cs, bytes) ∷ by_callstack i es
]

by_callstack_known :
    (i : CallstackInterner) (k bytes : ℕ) (cs : Callstack) (es : HashMap ℕ ℕ)
    → name_of i k ≡ some cs
    → by_callstack i ((k, bytes) ∷ es) ≡ (cs, bytes) ∷ by_callstack i es
by_callstack_known i k bytes cs es e = rw (e, by_callstack) refl

-- The line of an entry.
abbrev pub line_of : Memory → Bool → Callstack × ℕ → List ℕ
line_of memory post (cs, bytes) = as_string memory cs post ++ (text " " ++ decimal bytes)

module _ (i : CallstackInterner) (v : IsNumbered i) where
  pub lookup-by_callstack :
      (cs : Callstack) (es : HashMap ℕ ℕ)
      → lookup Callstack-discrete cs (by_callstack i es)
        ≡ elim (id_of i cs) [ none ↦ none | some id ↦ lookup ℕ_discrete id es ]
  unfolding lookup
  lookup-by_callstack cs [] = elim (Option-cases (id_of i cs)) [
    | inl e ↦ rw e refl
    | inr (id, e) ↦ rw e refl
  ]
  lookup-by_callstack cs ((k, bytes) ∷ es) = elim (Option-cases (name_of i k)) [
    | inl unknown ↦ elim (Option-cases (id_of i cs)) [
      | inl e ↦ rw (unknown, e, by_callstack) (lookup-by_callstack cs es ∙ rw e refl)
      | inr (id, e) ↦
          ground (arith, unknown, e, lookup-by_callstack cs es, (get_reverse_map_iff i cs id v).1 e)
    ]
    | inr (c, known) ↦
        ap (lookup Callstack-discrete cs) (by_callstack_known i k bytes c es known)
        ∙ elim (Callstack-discrete cs c) [
          | yes p ↦
              let named : id_of i cs ≡ some k =
                ap (id_of i) p ∙ (get_reverse_map_iff i c k v).0 known in
              if_pos (Callstack-discrete cs c) p (some bytes)
                (lookup Callstack-discrete cs (by_callstack i es))
              ∙ rw named (sym (if_pos (ℕ_discrete k k) refl (some bytes) (lookup ℕ_discrete k es)))
          | no p ↦
              if_neg (Callstack-discrete cs c) p (some bytes)
                (lookup Callstack-discrete cs (by_callstack i es))
              ∙ lookup-by_callstack cs es
              ∙ elim (Option-cases (id_of i cs)) [
                | inl e ↦ rw e refl
                | inr (id, e) ↦
                    let ne : id ≢ k =
                      λ q. p (cc ((get_reverse_map_iff i cs k v).1 (e ∙ ap some q), known)) in
                    rw e (sym (if_neg (ℕ_discrete id k) ne (some bytes) (lookup ℕ_discrete id es)))
              ]
        ]
  ]

  pub by_callstack-IsUnique :
      (es : HashMap ℕ ℕ) → IsUnique ℕ_discrete es → IsUnique Callstack-discrete (by_callstack i es)
  by_callstack-IsUnique [] u = tt
  by_callstack-IsUnique ((k, bytes) ∷ es) u = elim (Option-cases (name_of i k)) [
    | inl e ↦ rw (e, by_callstack) (by_callstack-IsUnique es u.1)
    | inr (cs, e) ↦
        rw (e, by_callstack)
          (
            lookup-by_callstack cs es ∙ rw ((get_reverse_map_iff i cs k v).0 e) u.0,
            by_callstack-IsUnique es u.1,
          )
  ]

  pub map_lines-by_callstack :
      (memory : Memory) (post : Bool) (es : HashMap ℕ ℕ)
      → KeysBelow i.max_id es
      → map_lines memory (get_reverse_map i) post es
        ≡ done (map (line_of memory post) (by_callstack i es))
  unfolding map_lines to_line
  map_lines-by_callstack memory post [] h = refl
  map_lines-by_callstack memory post ((id, bytes) ∷ es) h =
      let (cs, known) = v.dense id (ltb→lt id i.max_id h.0) in
      let named : name_of i id ≡ some cs = (get_reverse_map_iff i cs id v).1 known in
      rw
        (
          named,
          map_lines,
          by_callstack_known i id bytes cs es named,
          map_lines-by_callstack memory post es h.1,
        )
        refl
