-- ===== src/Cache/Bid.antt =====
-- When a bid is sent.
use cargo_stylus.Common.{ℕ, ◌≡◌, ◌≢◌, refl, ap, ◌∙◌, Option, none, some, List, [], ◌∷◌, ◌++◌, arith}
use mathlib.Core.List.{append-nil}
use cargo_stylus.Common.Outcome.{Outcome, ok}
use cargo_stylus.Common.Bytes.{Bytes}
use cargo_stylus.Rpc.{Tx, Failure, Provider}
use cargo_stylus.Rpc.Keeps.{
  Keeps, Keeps-bind, Keeps-lifted, Keeps-queried, keeps_rules, bind_keeps_ok, ask_ok, lift_ok,
  query_ok,
}
use cargo_stylus.Rpc.Sends.{Sends, Sends-bind, Sends-after, Sends-pure, Sends-send_transaction}
use cargo_stylus.Deploy.Config.{Env}
use cargo_stylus.Deploy.Transactions.{request}
use cargo_stylus.Cache.{
  BidAnswer, accepted, CacheNode, CacheBidConfig, answer_of, last_manager, with_fee,
  get_cache_manager_address, submit, place_bid,
}

answer_of-accepted : {A : Type 0} (b : BidAnswer A) (a : A) → answer_of b ≡ ok a → b ≡ accepted a
unfolding answer_of
answer_of-accepted b a h = ground arith

-- The manager that is used is the last of the list.
pub last_manager-last :
    (managers : List Bytes) (manager : Bytes)
    → last_manager managers ≡ ok manager
    → (before : List Bytes) × (managers ≡ before ++ manager ∷ [])
unfolding last_manager
last_manager-last [] manager h = cc h
last_manager-last (m ∷ []) manager h = ([], cc h)
last_manager-last (a ∷ m ∷ managers) manager h =
    let (before, e) = last_manager-last (m ∷ managers) manager h in (a ∷ before, ap (λ l. a ∷ l) e)

module _ (N : CacheNode) (E : Env) (P : Provider) where
  -- A bid that no manager accepts on trial is not sent: the command sends nothing.
  pub place_bid-refused :
      (cfg : CacheBidConfig) (sent : List Tx)
      → ((before : List Tx) (manager sender : Bytes)
          → N.try_bid before manager sender cfg.address cfg.bid ≢ accepted tt)
      → (place_bid N E P cfg sent).1 ≡ sent
  unfolding place_bid get_cache_manager_address
  place_bid-refused cfg sent refused =
      let keeps : Keeps (place_bid N E P cfg) = Keeps-bind _ _ (search keeps_rules) (λ chain.
        Keeps-bind _ _ (search keeps_rules) (λ sender.
          Keeps-bind _ _ (search keeps_rules) (λ manager.
            Keeps-bind _ _ (search keeps_rules) (λ fee. Keeps-queried _ _ (λ before.
              Keeps-lifted _ _
                (λ u e. absurd (refused before manager sender (answer_of-accepted _ u e)))))))) in
      keeps.at sent

  -- The manager that a command has found is the last of those that the node lists.
  manager_found :
      (sent : List Tx) (manager : Bytes)
      → ◌≡◌ {A = Outcome Failure Bytes × List Tx}
          (get_cache_manager_address N sent)
          (ok manager, sent)
      → (before : List Bytes) × (N.cache_managers sent ≡ some (before ++ manager ∷ []))
  unfolding get_cache_manager_address
  manager_found sent manager h =
      let (managers, e1, e2) = bind_keeps_ok _ _ sent manager sent (search keeps_rules) h in
      let (before, e) = last_manager-last managers manager (lift_ok _ sent manager e2) in
      (before, ask_ok _ N.cache_managers sent managers e1 ∙ ap (λ l. some l) e)

  get_cache_manager_address-Keeps : Keeps (get_cache_manager_address N)
  unfolding get_cache_manager_address
  get_cache_manager_address-Keeps = search keeps_rules

  abbrev pub IsBid : CacheBidConfig → Bytes → List Tx → List Tx → Type 0
  IsBid cfg manager sent after =
      (tx : Tx) × (after ≡ sent ++ tx ∷ [])
      × (tx.to ≡ some manager)
      × (tx.value ≡ cfg.bid)
      × (tx.input ≡ N.encode_place_bid cfg.address)

  with_fee-same :
      (tx : Tx) (fee : Option ℕ)
      → ((with_fee tx fee).to ≡ tx.to)
        × ((with_fee tx fee).value ≡ tx.value)
        × ((with_fee tx fee).input ≡ tx.input)
  with_fee-same tx none = (refl, refl, refl)
  with_fee-same tx (some fee) = (refl, refl, refl)

  submit-sent :
      (cfg : CacheBidConfig) (manager sender : Bytes) (fee : Option ℕ) (sent after : List Tx)
      → ◌≡◌ {A = Outcome Failure (Unit {0}) × List Tx}
          (submit N E P cfg manager sender fee sent)
          (ok tt, after)
      → IsBid cfg manager sent after
  unfolding submit
  submit-sent cfg manager sender fee sent after h =
      let plain = request sender (some manager) cfg.bid (N.encode_place_bid cfg.address) in
      let tx = with_fee plain fee in
      let sends : Sends (submit N E P cfg manager sender fee) (λ v txs. txs ≡ tx ∷ []) =
        Sends-bind _ _ _ _ (Sends-send_transaction P tx) (λ v txs e.
          Sends-after _ _ _ (search keeps_rules) (λ r. Sends-pure _ tt (append-nil txs ∙ e))) in
      let (txs, split, e) = sends.at sent tt after h in
      let (t, v, i) = with_fee-same plain fee in (tx, split ∙ ap (λ l. sent ++ l) e, t, v, i)

  -- A command that succeeds has tried the bid at the last of the node's cache managers, which
  -- accepted it, and has sent one transaction with the same bid to that manager.
  pub place_bid-sent :
      (cfg : CacheBidConfig) (sent after : List Tx)
      → ◌≡◌ {A = Outcome Failure (Unit {0}) × List Tx} (place_bid N E P cfg sent) (ok tt, after)
      → (manager sender : Bytes) × (before : List Bytes) × (N.cache_managers sent
          ≡ some (before ++ manager ∷ []))
        × (N.try_bid sent manager sender cfg.address cfg.bid ≡ accepted tt)
        × IsBid cfg manager sent after
  unfolding place_bid
  place_bid-sent cfg sent after h =
      let (chain, _, h1) = bind_keeps_ok _ _ sent tt after (search keeps_rules) h in
      let (sender, _, h2) = bind_keeps_ok _ _ sent tt after (search keeps_rules) h1 in
      let (manager, e3, h3) = bind_keeps_ok _ _ sent tt after get_cache_manager_address-Keeps h2 in
      let (fee, _, h4) = bind_keeps_ok _ _ sent tt after (search keeps_rules) h3 in
      let (answer, e5, h5) = bind_keeps_ok _ _ sent tt after (search keeps_rules) h4 in
      let (u, e6, h6) = bind_keeps_ok _ _ sent tt after (search keeps_rules) h5 in
      let (before, listed) = manager_found sent manager e3 in
      let asked =
        query_ok (λ before. N.try_bid before manager sender cfg.address cfg.bid) sent answer e5 in
      (
        manager,
        sender,
        before,
        listed,
        asked ∙ answer_of-accepted answer u (lift_ok (answer_of answer) sent u e6),
        submit-sent cfg manager sender fee sent after h6,
      )
