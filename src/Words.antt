-- ===== src/Words.antt =====
-- src/heuristics.c: the trie of frequent words and `count_legit_subsequences`, which looks for them at
-- every place of a label.
pub mod Counts
use nyet.Prelude.{
  ℕ, zero, suc, ◌+◌, ◌-◌, ◌*◌, ◌/◌, ◌%◌, ◌^◌, ◌≤◌, ◌<◌, ◌≡◌, refl, sym, ap, ap₂, subst, ◌∙◌, ◌≢◌,
  ◌↔◌, ◌⊎◌, inl, inr, Bool, true, false, not, ◌&&◌, ◌||◌, Option, none, some, List, [], ◌∷◌, ◌++◌,
  map, arith, ltb, leb, ◌==◌, if◌then◌else◌, if_elim, Bool-cases, Option-cases, Bytes, bytes_eq,
  bytes_eq_iff, bytes_eq_refl, ==_same, ==_other, length, length-append, All, take, drop,
  take_append_exact, drop_append_exact, set, get_elem?, get_or,
}

-- FwTrieNode: the entries that its initializer names, by their letters, and is_end
pub record FwTrieNode : Type 0 where
  pub next : List (ℕ × ℕ)
  pub is_end : Bool

abbrev trie_node : List (ℕ × ℕ) → Bool → FwTrieNode
trie_node next is_end = record { next = next; is_end = is_end }

-- FW_TRIE, by position: an initializer without a designator takes the place after the one before it
abbrev pub fw_trie : List FwTrieNode
fw_trie =
    trie_node ((b'g', 1) ∷ (b'u', 6) ∷ (b'c', 9) ∷ (b'a', 14) ∷ (b's', 19) ∷ (b'm', 25) ∷ []) false
    ∷ trie_node ((b'o', 2) ∷ []) false
    ∷ trie_node ((b'o', 3) ∷ []) false
    ∷ trie_node ((b'g', 4) ∷ []) false
    ∷ trie_node ((b'l', 5) ∷ []) false
    ∷ trie_node ((b'e', 29) ∷ []) false
    ∷ trie_node ((b's', 7) ∷ []) false
    ∷ trie_node ((b'e', 8) ∷ []) false
    ∷ trie_node ((b'r', 30) ∷ []) false
    ∷ trie_node ((b'o', 10) ∷ (b'l', 31) ∷ []) false
    ∷ trie_node ((b'n', 11) ∷ []) false
    ∷ trie_node ((b't', 12) ∷ []) false
    ∷ trie_node ((b'e', 13) ∷ []) false
    ∷ trie_node ((b'n', 33) ∷ []) false
    ∷ trie_node ((b'p', 15) ∷ (b'u', 16) ∷ []) false
    ∷ trie_node ((b'i', 34) ∷ []) false
    ∷ trie_node ((b't', 17) ∷ []) false
    ∷ trie_node ((b'h', 35) ∷ []) false
    ∷ trie_node ((b't', 20) ∷ []) false
    ∷ trie_node ((b'r', 21) ∷ (b'a', 22) ∷ []) false
    ∷ trie_node ((b'e', 23) ∷ []) false
    ∷ trie_node ((b'a', 24) ∷ []) false
    ∷ trie_node ((b'm', 36) ∷ []) false
    ∷ trie_node ((b't', 37) ∷ []) false
    ∷ trie_node ((b'a', 26) ∷ []) false
    ∷ trie_node ((b'i', 27) ∷ []) false
    ∷ trie_node ((b'l', 38) ∷ []) false
    ∷ trie_node ([]) false
    ∷ trie_node ([]) false
    ∷ trie_node ([]) true
    ∷ trie_node ([]) true
    ∷ trie_node ((b'o', 32) ∷ []) false
    ∷ trie_node ((b'u', 39) ∷ []) false
    ∷ trie_node ((b't', 40) ∷ []) false
    ∷ trie_node ([]) true
    ∷ trie_node ([]) true
    ∷ trie_node ([]) true
    ∷ trie_node ((b'i', 41) ∷ []) false
    ∷ trie_node ([]) true
    ∷ trie_node ((b'd', 42) ∷ []) false
    ∷ trie_node ([]) true
    ∷ trie_node ((b'c', 43) ∷ []) false
    ∷ trie_node ([]) true
    ∷ trie_node ([]) true
    ∷ []

abbrev pub fw_idx : ℕ → ℕ
fw_idx c = c - b'a'

-- -1 is none
abbrev pub fw_char_to_node_idx : ℕ → Option ℕ
fw_char_to_node_idx c =
    if leb b'a' c && leb c b'z' then some (c - b'a') else if c == b'-' then some 26 else none

-- the entry of an index; what the initializer does not name is 0
unfoldable pub entry : List (ℕ × ℕ) → ℕ → ℕ
entry [] idx = 0
entry ((c, node) ∷ next) idx = if fw_idx c == idx then node else entry next idx

abbrev no_node : FwTrieNode
no_node = trie_node [] false

abbrev pub node_at : ℕ → FwTrieNode
node_at node = get_or fw_trie node no_node

-- the node after a byte, 0 where the inner loop breaks
unfoldable pub follow : ℕ → ℕ → ℕ
unfolding entry
follow node c = elim (fw_char_to_node_idx c) [ none ↦ 0 | some idx ↦ entry (node_at node).next idx ]

-- the inner loop: the matches from a node on
unfoldable pub walk : ℕ → Bytes → ℕ
unfolding follow
walk node [] = 0
walk node (c ∷ cs) =
    let n = follow node c in
    let rest = walk n cs in if n == 0 then 0 else if (node_at n).is_end then suc rest else rest

-- the outer loop, over the places to start at
unfoldable pub matches_from : Bytes → ℕ
unfolding walk
matches_from [] = 0
matches_from (c ∷ cs) = walk 0 (c ∷ cs) + matches_from cs

abbrev pub tolower : ℕ → ℕ
tolower c = if leb b'A' c && leb c b'Z' then c + 32 else c

-- the copy of the label, up to a dot, the end or `n` bytes
unfoldable pub first_label : ℕ → Bytes → Bytes
first_label zero domain = []
first_label (suc n) [] = []
first_label (suc n) (c ∷ cs) = if c == b'.' then [] else c ∷ first_label n cs

unfoldable pub count_legit_subsequences : Bytes → ℕ
unfolding matches_from first_label
count_legit_subsequences domain = matches_from (map tolower (first_label 255 domain))
