-- ===== src/Confirm.antt =====
-- src/nyet.c, `gravity_check_thread`: what the answer of the Pi does to the shared state; the call of the
-- Pi itself (`query_pi_gravity`) gives `PiAnswer`.
pub mod Promoted
use nyet.Prelude.{
  ℕ, zero, suc, ◌+◌, ◌-◌, ◌*◌, ◌/◌, ◌%◌, ◌^◌, ◌≤◌, ◌<◌, ◌≡◌, refl, sym, ap, ap₂, subst, ◌∙◌, ◌≢◌,
  ◌↔◌, ◌⊎◌, inl, inr, Bool, true, false, not, ◌&&◌, ◌||◌, Option, none, some, List, [], ◌∷◌, ◌++◌,
  map, arith, ltb, leb, ◌==◌, if◌then◌else◌, if_elim, Bool-cases, Option-cases, Bytes, bytes_eq,
  bytes_eq_iff, bytes_eq_refl, ==_same, ==_other, length, length-append, All, take, drop,
  take_append_exact, drop_append_exact, set, get_elem?, get_or,
}
use nyet.RadixTree.{
  RadixEntry, Code, inserted, out_of_memory, bad_argument, no_root, Memory, blocked,
  radix_tree_insert_live,
}
use nyet.Request.{Server, dns_seconds}
use nyet.Codes.{source_pi_gravity}
use nyet.AnswerCache.{AnswerCache}
use nyet.Blocklist.{learned_line}
use nyet.AnswerCache.Upkeep.{answer_cache_invalidate}
use nyet.AskedCache.{finish}

-- the result -1, 0 or 1
pub data PiAnswer : Type 0 where
  unreachable not_listed listed : PiAnswer

-- the clock, the outcomes of the insertion's allocations, and whether learned.tsv opens
pub record Surroundings : Type 0 where
  pub seconds : ℕ
  pub memory : Memory
  pub learned_opens : Bool

-- SOURCE_PI_GRAVITY in the order of EntrySource
abbrev pub gravity_entry : ℕ → RadixEntry
gravity_entry now = record {
  status = blocked;
  ttl = 0;
  hit_count = 1;
  last_seen = now;
  source = 3;
  ml_score = 0;
  note = none;
}

abbrev pub invalidate? : Option AnswerCache → Bytes → Option AnswerCache
invalidate? none domain = none
invalidate? (some c) domain = some (answer_cache_invalidate c domain).0

abbrev pub is_ok : Code → Bool
is_ok inserted = true
is_ok out_of_memory = false
is_ok bad_argument = false
is_ok no_root = false

-- the learned line, where the insertion succeeded and the file opens
unfoldable pub learn : Bytes → Bytes → ℕ → Bool → Bool → Bytes
unfolding learned_line
learn file domain now put opens =
    if put && opens then file ++ learned_line blocked source_pi_gravity now now 1 0 domain else file

-- the promotion of a listed domain
unfoldable pub promote : Server → Bytes → Surroundings → Server
unfolding radix_tree_insert_live answer_cache_invalidate learn
promote p domain s =
    let now = dns_seconds s.seconds in
    let (code, tree) =
      radix_tree_insert_live p.proxy.blocklist_tree domain (gravity_entry now) s.memory in
    record p {
      proxy = record p.proxy { blocklist_tree = tree };
      dns_answer_cache = invalidate? p.dns_answer_cache domain;
      learned_file = learn p.learned_file domain now (is_ok code) s.learned_opens;
    }

-- the thread's end marks the domain, and gives its permit back
abbrev pub ended : Server → Bytes → Bool → Server
ended p domain reached = record p { gravity = finish p.gravity domain reached }

unfoldable pub gravity_check_thread : Server → Bytes → PiAnswer → Surroundings → Server
unfolding promote finish
gravity_check_thread p domain listed s = ended (promote p domain s) domain true
gravity_check_thread p domain not_listed s = ended p domain true
gravity_check_thread p domain unreachable s = ended p domain false
