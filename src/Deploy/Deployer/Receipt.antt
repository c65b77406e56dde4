-- ===== src/Deploy/Deployer/Receipt.antt =====
-- The address that a deployment through the deployer reports.
use cargo_stylus.Common.{
  ◌≡◌, ◌↔◌, refl, ap, true, false, List, [], ◌∷◌, ◌++◌, All, Bool-cases, inl, inr, arith, length,
  drop,
}
use cargo_stylus.Common.Outcome.{ok}
use cargo_stylus.Common.Bytes.{Bytes}
use cargo_stylus.Rpc.{Log}
use cargo_stylus.Deploy.Deployer.{is_deployed_log, get_address_from_receipt}

-- The first log of a deployment, and what stands before it
pub record Reported (hash : Bytes) (logs : List Log) (address : Bytes) : Type 0 where
  pub before : List Log
  pub log : Log
  pub rest : List Log
  pub split : logs ≡ before ++ log ∷ rest
  pub none_before : All (λ l. is_deployed_log hash l.topics ≡ false) before
  pub deployed : is_deployed_log hash log.topics ≡ true
  pub one_word : length log.bytes ≡ 32
  pub last_bytes : address ≡ drop 12 log.bytes

Reported-later :
    (hash address : Bytes) (log : Log) (logs : List Log)
    → is_deployed_log hash log.topics ≡ false
    → Reported hash logs address
    → Reported hash (log ∷ logs) address
Reported-later hash address log logs other r = record {
  before = log ∷ r.before;
  log = r.log;
  rest = r.rest;
  split = ap (λ l. log ∷ l) r.split;
  none_before = (other, r.none_before);
  deployed = r.deployed;
  one_word = r.one_word;
  last_bytes = r.last_bytes;
}

get_address_from_receipt-Reported :
    (hash address : Bytes) (logs : List Log)
    → get_address_from_receipt hash logs ≡ ok address
    → Reported hash logs address
unfolding get_address_from_receipt
get_address_from_receipt-Reported hash address [] h = absurd (cc h)
get_address_from_receipt-Reported hash address (log ∷ logs) h =
    elim (Bool-cases (is_deployed_log hash log.topics)) [
      | inl here ↦ record {
        before = [];
        log = log;
        rest = logs;
        split = refl;
        none_before = tt;
        deployed = here;
        one_word = ground arith;
        last_bytes = ground arith;
      }
      | inr other ↦
          Reported-later hash address log logs other
            (get_address_from_receipt-Reported hash address logs (rw other at h))
    ]

reported_found :
    (hash : Bytes) (before : List Log) (log : Log) (rest : List Log)
    → All (λ l. is_deployed_log hash l.topics ≡ false) before
    → is_deployed_log hash log.topics ≡ true
    → length log.bytes ≡ 32
    → get_address_from_receipt hash (before ++ log ∷ rest) ≡ ok (drop 12 log.bytes)
unfolding get_address_from_receipt
reported_found hash [] log rest a d w = rw (d, w) refl
reported_found hash (b ∷ before) log rest a d w =
    rw a.0 (reported_found hash before log rest a.1 d w)

-- An address is found exactly when it is the last 20 bytes of the one word of data of the first log
-- whose first topic is the hash.
pub get_address_from_receipt_iff :
    (hash address : Bytes) (logs : List Log)
    → (get_address_from_receipt hash logs ≡ ok address) ↔ Reported hash logs address
get_address_from_receipt_iff hash address logs = (
  get_address_from_receipt-Reported hash address logs,
  λ r.
      rw (r.split, r.last_bytes)
        (reported_found hash r.before r.log r.rest r.none_before r.deployed r.one_word),
)
