-- ===== src/Index/Analyzer.antt =====
-- src/index/fulltext/analyzer.rs: the tokens of a text. A character is its code point.
use lightgraph.Base.{
  ℕ, zero, suc, ◌+◌, ◌%◌, ◌≤◌, ◌<◌, ◌≡◌, refl, Bool, true, false, Option, none, some, List, [], ◌∷◌,
  ◌++◌, ◌&&◌, ◌||◌, leb, length, option_map, u32_mod, arith,
}

-- What the analyzer takes from the character tables of the standard library.
pub record CharTables : Type 0 where
  pub is_alphabetic : ℕ → Bool
  pub is_numeric : ℕ → Bool
  pub to_lowercase : ℕ → List ℕ

pub record Token : Type 0 where
  pub term : List ℕ
  pub position : ℕ

abbrev pub between : ℕ → ℕ → ℕ → Bool
between lo hi c = leb lo c && leb c hi

unfoldable pub is_cjk : ℕ → Bool
is_cjk c =
    between 0x4e00 0x9fff c
    || between 0x3400 0x4dbf c
    || between 0xf900 0xfaff c
    || between 0x3040 0x309f c
    || between 0x30a0 0x30ff c
    || between 0xac00 0xd7af c

-- the run of characters that pass a test, and the rest
unfoldable pub take_run : (ℕ → Bool) → List ℕ → List ℕ
take_run test [] = []
take_run test (c ∷ cs) =
    let rest = take_run test cs in elim (test c) [ true ↦ c ∷ rest | false ↦ [] ]

unfoldable pub drop_run : (ℕ → Bool) → List ℕ → List ℕ
drop_run test [] = []
drop_run test (c ∷ cs) =
    let rest = drop_run test cs in elim (test c) [ true ↦ rest | false ↦ c ∷ cs ]

unfoldable pub lowercase : (ℕ → List ℕ) → List ℕ → List ℕ
lowercase lower [] = []
lowercase lower (c ∷ cs) = lower c ++ lowercase lower cs

abbrev pub next : ℕ → ℕ
next pos = (pos + 1) % u32_mod

-- The tokens that start at a CJK character, and the position after them.
unfoldable pub cjk_tokens : ℕ → List ℕ → ℕ → List Token × ℕ
cjk_tokens c [] pos = (record { term = c ∷ []; position = pos } ∷ [], next pos)
cjk_tokens c (d ∷ _) pos = elim (is_cjk d) [
  | false ↦ (record { term = c ∷ []; position = pos } ∷ [], next pos)
  | true ↦ (
    record { term = c ∷ d ∷ []; position = pos }
        ∷ record { term = c ∷ []; position = next pos }
        ∷ [],
    next (next pos),
  )
]

module _ (tables : CharTables) where
  -- A round of the loop takes at least one character.
  unfoldable pub tokenize_loop : ℕ → List ℕ → ℕ → Option (List Token)
  tokenize_loop zero cs pos = none
  tokenize_loop (suc fuel) [] pos = some []
  tokenize_loop (suc fuel) (c ∷ cs) pos = elim (is_cjk c) [
    | true ↦
        (let (tokens, pos') = cjk_tokens c cs pos in
          option_map (λ (l : List Token). tokens ++ l) (tokenize_loop fuel cs pos'))
    | false ↦ elim (tables.is_alphabetic c) [
      | true ↦
          option_map
            (λ (l : List Token).
              record {
                term = lowercase tables.to_lowercase (c ∷ take_run tables.is_alphabetic cs);
                position = pos;
              }
              ∷ l)
            (tokenize_loop fuel (drop_run tables.is_alphabetic cs) (next pos))
      | false ↦ elim (tables.is_numeric c) [
        | true ↦
            option_map
              (λ (l : List Token).
                record { term = c ∷ take_run tables.is_numeric cs; position = pos } ∷ l)
              (tokenize_loop fuel (drop_run tables.is_numeric cs) (next pos))
        | false ↦ tokenize_loop fuel cs pos
      ]
    ]
  ]

  unfoldable pub tokenize : List ℕ → Option (List Token)
  tokenize text = tokenize_loop (suc (length text)) text 0

length-drop_run : (test : ℕ → Bool) (cs : List ℕ) → length (drop_run test cs) ≤ length cs
unfolding drop_run
length-drop_run test [] = omega arith
length-drop_run test (c ∷ cs) = ground (arith, length-drop_run test cs)

abbrev pub returned {ℓ} : {A : Type ℓ} → Option A → Bool
returned none = false
returned (some _) = true

module _ (tables : CharTables) where
  returned-tokenize_loop :
      (fuel : ℕ) (cs : List ℕ) (pos : ℕ)
      → length cs < fuel
      → returned (tokenize_loop tables fuel cs pos) ≡ true
  unfolding tokenize_loop
  returned-tokenize_loop zero cs pos h = absurd (omega arith)
  returned-tokenize_loop (suc fuel) [] pos h = refl
  returned-tokenize_loop (suc fuel) (c ∷ cs) pos h =
      let shorter : (test : ℕ → Bool) → length (drop_run test cs) < fuel =
        λ test. omega (arith, length-drop_run test cs) in
      let here = returned-tokenize_loop fuel cs pos (omega arith) in
      let cjk = returned-tokenize_loop fuel cs (cjk_tokens c cs pos).1 (omega arith) in
      let word =
        returned-tokenize_loop fuel (drop_run tables.is_alphabetic cs) (next pos)
          (shorter tables.is_alphabetic) in
      let number =
        returned-tokenize_loop fuel (drop_run tables.is_numeric cs) (next pos)
          (shorter tables.is_numeric) in
      ground (arith, here, cjk, word, number)

  -- The loop ends on every text: its fuel lasts.
  pub returned-tokenize : (text : List ℕ) → returned (tokenize tables text) ≡ true
  unfolding tokenize
  returned-tokenize text = returned-tokenize_loop (suc (length text)) text 0 (omega arith)
