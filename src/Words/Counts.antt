-- ===== src/Words/Counts.antt =====
-- What the trie of frequent words finds: every occurrence of the words that its nodes spell.
use nyet.Prelude.{
  ℕ, zero, suc, ◌+◌, ◌≡◌, refl, sym, ap, ap₂, subst, ◌∙◌, inl, inr, Bool, true, false, not, ◌&&◌,
  none, some, List, [], ◌∷◌, ◌++◌, map, arith, leb, ◌==◌, if◌then◌else◌, Bool-cases, Bytes,
}
use nyet.Words.{
  entry, node_at, fw_char_to_node_idx, follow, walk, count_legit_subsequences, matches_from,
  tolower, first_label,
}

-- whether a word starts a text
unfoldable pub starts : Bytes → Bytes → Bool
starts [] text = true
starts (w ∷ ws) [] = false
starts (w ∷ ws) (c ∷ cs) = (w == c) && starts ws cs

-- how many of the words start a text
unfoldable pub starting : List Bytes → Bytes → ℕ
unfolding starts
starting [] text = 0
starting (w ∷ ws) text = (if starts w text then 1 else 0) + starting ws text

-- how many places of a text one of the words starts at, each word counted
unfoldable pub occurrences : List Bytes → Bytes → ℕ
unfolding starting
occurrences words [] = 0
occurrences words (c ∷ cs) = starting words (c ∷ cs) + occurrences words cs

-- the entry of a letter
unfoldable assoc : List (ℕ × ℕ) → ℕ → ℕ
assoc [] c = 0
assoc ((x, node) ∷ next) c = if x == c then node else assoc next c

abbrev is_letter : ℕ → Bool
is_letter c = leb b'a' c && leb c b'z'

-- The words below a node that its branches spell, from those below the nodes that they lead to.
unfoldable branch_words : (ℕ → List Bytes) → List (ℕ × ℕ) → List Bytes
branch_words below [] = []
branch_words below ((c, m) ∷ next) =
    (if (node_at m).is_end then (c ∷ []) ∷ [] else [])
    ++ (map (λ w. c ∷ w) (below m) ++ branch_words below next)

unfoldable words_at : ℕ → ℕ → List Bytes
unfolding branch_words
words_at zero node = []
words_at (suc k) node = branch_words (words_at k) (node_at node).next

-- whether branches are letters, each once, that lead to nodes other than the root with a test of them
unfoldable are_branches : (ℕ → Bool) → List (ℕ × ℕ) → Bool
unfolding assoc
are_branches test [] = true
are_branches test ((c, m) ∷ next) =
    is_letter c && not (m == 0) && assoc next c == 0 && test m && are_branches test next

-- whether a node is the root of a tree of at most `k` levels
unfoldable is_tree : ℕ → ℕ → Bool
unfolding are_branches
is_tree zero node = are_branches (λ _. false) (node_at node).next
is_tree (suc k) node = are_branches (is_tree k) (node_at node).next

fw_trie-is_tree : is_tree 8 0 ≡ true
unfolding is_tree are_branches assoc
fw_trie-is_tree = refl

entry-assoc :
    (next : List (ℕ × ℕ)) (test : ℕ → Bool) (c : ℕ)
    → are_branches test next ≡ true
    → (elim (fw_char_to_node_idx c) [ none ↦ 0 | some idx ↦ entry next idx ]) ≡ assoc next c
unfolding entry assoc are_branches
entry-assoc [] test c h = ground arith
entry-assoc ((x, m) ∷ next) test c h = ground (arith, entry-assoc next test c)

starting-append :
    (xs ys : List Bytes) (text : Bytes)
    → starting (xs ++ ys) text ≡ starting xs text + starting ys text
unfolding starting
starting-append [] ys text = omega arith
starting-append (x ∷ xs) ys text = omega (arith, starting-append xs ys text)

starting-cons :
    (x c : ℕ) (ws : List Bytes) (cs : Bytes)
    → starting (map (λ w. x ∷ w) ws) (c ∷ cs) ≡ (if x == c then starting ws cs else 0)
unfolding starting starts
starting-cons x c [] cs = ground arith
starting-cons x c (w ∷ ws) cs = ground (arith, starting-cons x c ws cs)

starting-empty : (x : ℕ) (ws : List Bytes) → starting (map (λ w. x ∷ w) ws) [] ≡ 0
unfolding starting starts
starting-empty x [] = refl
starting-empty x (w ∷ ws) = omega (arith, starting-empty x ws)

-- what a node counts: itself where a word ends, and the words below it
abbrev value : (ℕ → List Bytes) → ℕ → Bytes → ℕ
value below m cs =
    if m == 0 then 0 else (if (node_at m).is_end then 1 else 0) + starting (below m) cs

starting_self :
    (x c : ℕ) (e : Bool) (cs : Bytes)
    → starting (if e then (x ∷ []) ∷ [] else []) (c ∷ cs)
      ≡ (if x == c then (if e then 1 else 0) else 0)
unfolding starting starts
starting_self x c e cs = ground arith

-- the branch of `x` to `m`, and the other branches
starting-branch :
    (below : ℕ → List Bytes) (x m c : ℕ) (cs : Bytes) (rest : List Bytes)
    → starting
        ((if (node_at m).is_end then (x ∷ []) ∷ [] else []) ++ (map (λ w. x ∷ w) (below m) ++ rest))
        (c ∷ cs)
      ≡ (if x == c then (if (node_at m).is_end then 1 else 0) else 0)
        + ((if x == c then starting (below m) cs else 0) + starting rest (c ∷ cs))
starting-branch below x m c cs rest =
    starting-append (if (node_at m).is_end then (x ∷ []) ∷ [] else [])
      (map (λ w. x ∷ w) (below m) ++ rest) (c ∷ cs)
    ∙ ap₂ ◌+◌ (starting_self x c (node_at m).is_end cs) (
        starting-append (map (λ w. x ∷ w) (below m)) rest (c ∷ cs)
        ∙ ap (λ n. n + starting rest (c ∷ cs)) (starting-cons x c (below m) cs))

-- the sum over branches, given that of the others
value-branch :
    (below : ℕ → List Bytes) (x m c other : ℕ) (cs : Bytes)
    → (m == 0) ≡ false
    → (x ≡ c → other ≡ 0)
    → (if x == c then (if (node_at m).is_end then 1 else 0) else 0)
        + ((if x == c then starting (below m) cs else 0) + value below other cs)
      ≡ value below (if x == c then m else other) cs
value-branch below x m c other cs h o = elim (Bool-cases (x == c)) [
  | inl b ↦ rw (b, h, o (ground (arith, b))) (omega arith)
  | inr b ↦ rw b (omega arith)
]

branch_words-value :
    (below : ℕ → List Bytes) (next : List (ℕ × ℕ)) (test : ℕ → Bool) (c : ℕ) (cs : Bytes)
    → are_branches test next ≡ true
    → starting (branch_words below next) (c ∷ cs) ≡ value below (assoc next c) cs
unfolding branch_words assoc are_branches
branch_words-value below [] test c cs h = unfold starting in refl
branch_words-value below ((x, m) ∷ next) test c cs h =
    let rest : are_branches test next ≡ true = ground (arith, h) in
    let root : (m == 0) ≡ false = ground (arith, h) in
    let alone : assoc next x ≡ 0 = ground (arith, h) in
    starting-branch below x m c cs (branch_words below next)
    ∙ ap
        (λ n.
          (if x == c then (if (node_at m).is_end then 1 else 0) else 0)
          + ((if x == c then starting (below m) cs else 0) + n))
        (branch_words-value below next test c cs rest)
    ∙ value-branch below x m c (assoc next c) cs root (λ e. subst (λ y. assoc next y ≡ 0) e alone)

-- where the branches of a node lead
follow-assoc :
    (test : ℕ → Bool) (node c : ℕ)
    → are_branches test (node_at node).next ≡ true
    → follow node c ≡ assoc (node_at node).next c
unfolding follow
follow-assoc test node c h = entry-assoc (node_at node).next test c h

-- the branch of a letter passes the test
assoc-test :
    (test : ℕ → Bool) (next : List (ℕ × ℕ)) (c : ℕ)
    → are_branches test next ≡ true
    → (assoc next c == 0) ≡ false
    → test (assoc next c) ≡ true
unfolding assoc are_branches
assoc-test test [] c h n = absurd (ground (arith, n))
assoc-test test ((x, m) ∷ next) c h n = ground (arith, assoc-test test next c)

starting-none : (x : ℕ) (e : Bool) → starting (if e then (x ∷ []) ∷ [] else []) [] ≡ 0
unfolding starting starts
starting-none x e = ground arith

branch_words-empty :
    (below : ℕ → List Bytes) (next : List (ℕ × ℕ)) → starting (branch_words below next) [] ≡ 0
unfolding branch_words
branch_words-empty below [] = unfold starting in refl
branch_words-empty below ((x, m) ∷ next) =
    starting-append (if (node_at m).is_end then (x ∷ []) ∷ [] else [])
      (map (λ w. x ∷ w) (below m) ++ branch_words below next) []
    ∙ ap₂ ◌+◌ (starting-none x (node_at m).is_end) (
        starting-append (map (λ w. x ∷ w) (below m)) (branch_words below next) []
        ∙ ap₂ ◌+◌ (starting-empty x (below m)) (branch_words-empty below next))
    ∙ omega arith

words_at-empty : (k node : ℕ) → starting (words_at k node) [] ≡ 0
unfolding words_at
words_at-empty zero node = unfold starting in refl
words_at-empty (suc k) node = branch_words-empty (words_at k) (node_at node).next

-- a round of the inner loop that comes to the node `n`
walk-value :
    (below : ℕ → List Bytes) (n : ℕ) (cs : Bytes)
    → ((n == 0) ≡ false → walk n cs ≡ starting (below n) cs)
    → (if n == 0 then 0 else if (node_at n).is_end then suc (walk n cs) else walk n cs)
      ≡ value below n cs
walk-value below n cs h = elim (Bool-cases (n == 0)) [
  | inl z ↦ rw z refl
  | inr z ↦ rw (z, h z) (ground arith)
]

walk-starting :
    (k node : ℕ) (text : Bytes)
    → is_tree k node ≡ true
    → walk node text ≡ starting (words_at k node) text
unfolding walk is_tree words_at
walk-starting k node [] h = sym (words_at-empty k node)
walk-starting zero node (c ∷ cs) h =
    let f = follow-assoc (λ _. false) node c h in
    let a = assoc-test (λ _. false) (node_at node).next c h in
    elim (Bool-cases (assoc (node_at node).next c == 0)) [
      | inl z ↦ rw (f, z) (unfold starting in refl)
      | inr z ↦ absurd (ground (arith, a z))
    ]
walk-starting (suc k) node (c ∷ cs) h =
    let n = assoc (node_at node).next c in
    rw (follow-assoc (is_tree k) node c h) (
      walk-value (words_at k) n cs
        (λ z. walk-starting k n cs (assoc-test (is_tree k) (node_at node).next c h z))
      ∙ sym (branch_words-value (words_at k) (node_at node).next (is_tree k) c cs h))

abbrev pub frequent_words : List Bytes
frequent_words =
    (b'g' ∷ b'o' ∷ b'o' ∷ b'g' ∷ b'l' ∷ b'e' ∷ [])
    ∷ (b'u' ∷ b's' ∷ b'e' ∷ b'r' ∷ [])
    ∷ (b'c' ∷ b'o' ∷ b'n' ∷ b't' ∷ b'e' ∷ b'n' ∷ b't' ∷ [])
    ∷ (b'c' ∷ b'l' ∷ b'o' ∷ b'u' ∷ b'd' ∷ [])
    ∷ (b'a' ∷ b'p' ∷ b'i' ∷ [])
    ∷ (b'a' ∷ b'u' ∷ b't' ∷ b'h' ∷ [])
    ∷ (b's' ∷ b'r' ∷ b'a' ∷ b'a' ∷ b'l' ∷ [])
    ∷ (b's' ∷ b'a' ∷ b'm' ∷ [])
    ∷ []

fw_trie-words : words_at 8 0 ≡ frequent_words
unfolding words_at branch_words
fw_trie-words = refl

matches_from-occurrences : (text : Bytes) → matches_from text ≡ occurrences frequent_words text
unfolding matches_from occurrences
matches_from-occurrences [] = refl
matches_from-occurrences (c ∷ cs) =
    ap₂ ◌+◌
      (walk-starting 8 0 (c ∷ cs) fw_trie-is_tree ∙ ap (λ ws. starting ws (c ∷ cs)) fw_trie-words)
      (matches_from-occurrences cs)

-- The count for a label, up to its first dot and to 255 bytes and in lower case, is the number of
-- places where one of the words google, user, content, cloud, api, auth, sam and sraal starts, every
-- occurrence counted; stream, mail and static are not among the words.
pub count_legit_subsequences-occurrences :
    (domain : Bytes)
    → count_legit_subsequences domain
      ≡ occurrences frequent_words (map tolower (first_label 255 domain))
unfolding count_legit_subsequences
count_legit_subsequences-occurrences domain =
    matches_from-occurrences (map tolower (first_label 255 domain))
