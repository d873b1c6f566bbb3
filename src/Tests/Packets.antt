-- ===== src/Tests/Packets.antt =====
-- Packets at concrete queries: the name ab.c, type A.
use nyet.Prelude.{
  ◌+◌, ◌*◌, ◌≤◌, ◌<◌, ◌≡◌, refl, some, List, [], ◌∷◌, ◌++◌, arith, Bytes, length, All,
}
use nyet.Packet.{
  parse_query, parse_answer_records, create_cached_answer_response, create_blocked_response, Answer,
}
use nyet.Packet.Query.{IsDomainByte, IsLabel, encode, parse_query-fits, parse_query-encode}
use nyet.Packet.Names.{IsShort}
use nyet.Packet.Answers.{IsSendable}
use nyet.Packet.Replies.{
  Query, packet, sinkhole, create_cached_answer_response-parse, create_blocked_response-parse,
}

abbrev names : List Bytes
names = (97 ∷ 66 ∷ []) ∷ (99 ∷ []) ∷ []

abbrev header : Bytes
header = 7 ∷ 7 ∷ 1 ∷ 0 ∷ 0 ∷ 1 ∷ 0 ∷ 0 ∷ 0 ∷ 0 ∷ 0 ∷ 0 ∷ []

names-IsLabel : All IsLabel names
names-IsLabel = ((omega arith, (refl, (refl, tt))), ((omega arith, (refl, tt)), tt))

parse_query-encode_example :
    parse_query (header ++ (encode names ++ (0 ∷ 1 ∷ 0 ∷ 1 ∷ []))) 256
    ≡ some (97 ∷ 98 ∷ 46 ∷ 99 ∷ [], 1)
parse_query-encode_example =
    parse_query-encode header (0 ∷ 1 ∷ []) names 256 0 1 refl names-IsLabel (omega arith)

parse_query-encode_run :
    parse_query (header ++ (encode names ++ (0 ∷ 1 ∷ 0 ∷ 1 ∷ []))) 256
    ≡ some (97 ∷ 98 ∷ 46 ∷ 99 ∷ [], 1)
unfolding parse_query encode
parse_query-encode_run = refl

parse_query-fits_example : (4 < 256) × All IsDomainByte (97 ∷ 98 ∷ 46 ∷ 99 ∷ [])
parse_query-fits_example =
    parse_query-fits (header ++ (encode names ++ (0 ∷ 1 ∷ 0 ∷ 1 ∷ []))) 256 (97 ∷ 98 ∷ 46 ∷ 99 ∷ [])
      1 (omega arith) parse_query-encode_run

abbrev query : Query
query = record {
  id1 = 7;
  id0 = 7;
  flags1 = 1;
  flags0 = 0;
  ancount1 = 0;
  ancount0 = 0;
  nscount1 = 0;
  nscount0 = 0;
  arcount1 = 0;
  arcount0 = 0;
  name = names;
  type1 = 0;
  type0 = 1;
  class1 = 0;
  class0 = 1;
}

names-IsShort : All IsShort names
names-IsShort = ((omega arith, omega arith), ((omega arith, omega arith), tt))

abbrev answer : Answer
answer = record {
  records = (10 ∷ 0 ∷ 0 ∷ 1 ∷ []) ∷ (10 ∷ 0 ∷ 0 ∷ 2 ∷ []) ∷ [];
  record_bytes = 4;
  ttl_seconds = 300;
}

answer-IsSendable : IsSendable 1 answer
answer-IsSendable = record {
  kind = omega arith;
  bytes = refl;
  some_record = omega arith;
  at_most = omega arith;
  widths = (refl, (refl, tt));
  positive = omega arith;
  bounded = omega arith;
}

small : length (packet query []) + length answer.records * (12 + answer.record_bytes) ≤ 512
unfolding encode
small = omega arith

create_cached_answer_response-parse_example :
    (out : Bytes) × (create_cached_answer_response (packet query []) 512 1 answer ≡ some out)
    × (parse_answer_records out 1 ≡ some answer)
create_cached_answer_response-parse_example =
    create_cached_answer_response-parse query 512 1 answer names-IsShort answer-IsSendable small

create_blocked_response-parse_example :
    parse_answer_records (create_blocked_response (packet query []) 60) 1 ≡ some (sinkhole 60)
create_blocked_response-parse_example =
    create_blocked_response-parse query 60 names-IsShort (omega arith) (omega arith)
