-- ===== src/Dns/Cache/Tests.antt =====
-- The cache theorems at a concrete question.
use dns_relay.Base.{◌≡◌, refl, [], ◌∷◌, arith}
use dns_relay.Dns.Cache.{
  CacheValue, DnsCache, decimal, cache_key_create, dns_cache_init, dns_cache_put, dns_cache_get,
  dns_cache_prune, put_key,
}
use dns_relay.Dns.Cache.Key.{cache_key_create-injective}
use dns_relay.Dns.Cache.Insert.{Puts, put_key-Puts}
use dns_relay.Dns.Cache.Prune.{Prunes, dns_cache_prune-Prunes}
use dns_relay.Dns.Cache.Questions.{
  Question, IsWord, key_of, Learns, Recalls, dns_cache_init-IsValid, dns_cache_put-Learns,
  dns_cache_get-Recalls,
}

-- "a." and its address record, which lives a minute.
abbrev question : Question
question = record { qname = 1 ∷ 97 ∷ []; qtype = 1; qclass = 1 }

abbrev answer : CacheValue
answer = record {
  answer_rrs = 1;
  authority_rrs = 0;
  additional_rrs = 0;
  rrs =
      record {
        name = 1 ∷ 97 ∷ [];
        rtype = 1;
        rclass = 1;
        ttl = 60;
        rdata_length = 4;
        rdata = 10 ∷ 0 ∷ 0 ∷ 1 ∷ [];
      }
      ∷ [];
}

question-IsWord : IsWord question
question-IsWord = record { type_word = omega arith; class_word = omega arith }

-- "1|1|a" with its length byte.
key_text : cache_key_create (1 ∷ 97 ∷ []) 1 28 ≡ 50 ∷ 56 ∷ 124 ∷ 49 ∷ 124 ∷ 1 ∷ 97 ∷ []
unfolding cache_key_create decimal
key_text = refl

dns_cache_put-Learns_example :
    Learns 5000 dns_cache_init question answer
      (dns_cache_put 5000 dns_cache_init (1 ∷ 97 ∷ []) 1 1 answer)
dns_cache_put-Learns_example =
    dns_cache_put-Learns 5000 dns_cache_init question answer question-IsWord
      (dns_cache_init-IsValid.0)

put_key-Puts_example :
    Puts 5000 dns_cache_init
      (key_of question)
      answer
      (put_key 5000 dns_cache_init (key_of question) answer)
put_key-Puts_example =
    put_key-Puts 5000 dns_cache_init (key_of question) answer (dns_cache_init-IsValid.0)

-- The cache that has answered the question once.
abbrev warm : DnsCache
warm = dns_cache_put 5000 dns_cache_init (1 ∷ 97 ∷ []) 1 1 answer

warm-Learns : Learns 5000 dns_cache_init question answer warm
warm-Learns =
    dns_cache_put-Learns 5000 dns_cache_init question answer question-IsWord
      (dns_cache_init-IsValid.0)

dns_cache_get-Recalls_example :
    Recalls 64000 warm question (dns_cache_get 64000 warm (1 ∷ 97 ∷ []) 1 1)
dns_cache_get-Recalls_example =
    dns_cache_get-Recalls 64000 warm question question-IsWord warm-Learns.valid

dns_cache_prune-Prunes_example : Prunes 66000 warm (dns_cache_prune 66000 warm)
dns_cache_prune-Prunes_example = dns_cache_prune-Prunes 66000 warm warm-Learns.valid

cache_key_create-injective_example :
    (question.qname ≡ 1 ∷ 97 ∷ []) × (question.qtype ≡ 1) × (question.qclass ≡ 1)
cache_key_create-injective_example =
    cache_key_create-injective (1 ∷ 97 ∷ []) (1 ∷ 97 ∷ []) 1 1 1 1 (omega arith) (omega arith)
      (omega arith) (omega arith) refl
