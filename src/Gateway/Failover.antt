-- ===== src/Gateway/Failover.antt =====
-- When the loop of `chat_completions` in app/__init__.py calls the next provider.
use kunlun_model_gateway.Base.{ℕ, ◌+◌, ◌≡◌, ◌<◌, refl, true, false, ◌∷◌, arith, subst, sym, some}
use kunlun_model_gateway.Base.Result.{Ensures, Ensures-ok, Ensures-guard}
use kunlun_model_gateway.Models.{Db, AttemptStatus}
use kunlun_model_gateway.Billing.Release.{record_attempt}
use kunlun_model_gateway.Providers.{Client, ProviderError, new_error, provider_name}
use kunlun_model_gateway.Gateway.{Phase, World, Serving, Round}
use kunlun_model_gateway.Gateway.Turn.{Next, round_of, turn}
use kunlun_model_gateway.Gateway.Rule.{Obeys, Stage, Fails, Refuses}
use kunlun_model_gateway.Gateway.Rule.Body.{turn-Obeys}
use kunlun_model_gateway.Gateway.Stream.{attempt}

-- No other request commits anything.
abbrev pub IsAlone : World → Type 0
IsAlone w = (i : ℕ) (p : Phase) (db : Db) → w.others i p db ≡ db

-- The client of the round has refused with `e`, and the round has noted that in the row of its
-- attempt and written nothing else.
pub record FailsOver (w : World) (c : Serving) (client : Client) (index : ℕ) (e : ProviderError)
    (db db' : Db) : Type 0 where
  pub told : Refuses c client e
  pub free : e.request_may_be_billable ≡ false
  pub safe : e.safe_to_failover ≡ true
  pub more : index + 1 < c.total
  pub unchanged : db' ≡ record db {
    attempts =
        record {
          request_id = c.reservation.request_id;
          ordinal = index + 1;
          provider = w.text_id (provider_name client index);
          status = AttemptStatus.failed;
          status_code = some e.status_code;
          failure_category = some e.category;
        }
        ∷ db.attempts;
  }

module _ (w : World) (c : Serving) (alone : IsAlone w) where
  module _ (client : Client) (index : ℕ) where
    abbrev round : Round
    round = round_of w c index client

    -- After the attempt is noted, nothing more is written.
    abbrev Goes : Stage → Db → Next → Type 0
    Goes s db (Next.done reply db') = Unit
    Goes Stage.fresh db (Next.continue e db') = FailsOver w c client index e db db'
    Goes (Stage.refusing x) db (Next.continue e db') =
        (e ≡ x)
        × (e.request_may_be_billable ≡ false)
        × (e.safe_to_failover ≡ true)
        × (index + 1 < c.total)
        × (db' ≡ db)
    Goes Stage.noted db (Next.continue e db') = ⊥
    Goes Stage.checked db (Next.continue e db') = ⊥

    attempted-Goes : (n : Next) (db db' : Db) → Goes Stage.noted db' n → Goes Stage.fresh db n
    attempted-Goes (Next.done reply after) db db' rest = tt
    attempted-Goes (Next.continue e after) db db' rest = absurd rest

    audited-Goes : (n : Next) (db db' : Db) → Goes Stage.checked db' n → Goes Stage.noted db n
    audited-Goes (Next.done reply after) db db' rest = tt
    audited-Goes (Next.continue e after) db db' rest = absurd rest

    elsewhere-Goes :
        (s : Stage) (p : Phase) (n : Next) (db : Db) → Goes s (w.others index p db) n → Goes s db n
    elsewhere-Goes s p n db rest = rw (alone index p db) at rest

    -- An answer that is no dict may be billed.
    told_of :
        (x e : ProviderError)
        → Fails c client x
        → e ≡ x
        → e.request_may_be_billable ≡ false
        → Refuses c client e
    unfolding new_error
    told_of x e (Fails.refuses told) same free = subst (Refuses c client) (sym same) told
    told_of x e (Fails.not_a_dict answer bad) same free =
        let billable : e.request_may_be_billable ≡ true = rw (same, bad) refl in absurd (cc)

    refused-Goes :
        (x : ProviderError) (n : Next) (db : Db)
        → Fails c client x
        → Ensures
            (λ (db' : Db). Goes (Stage.refusing x) db' n → Goes Stage.fresh db n)
            (record_attempt
              (attempt w c round AttemptStatus.failed x.status_code (some x.category))
              db)
    unfolding record_attempt
    refused-Goes x (Next.done reply db') db fails =
        Ensures-guard _ _ _ λ _. Ensures-ok _ (λ rest. tt)
    refused-Goes x (Next.continue e db') db fails = Ensures-guard _ _ _ λ _.
        Ensures-ok _ λ (same, free, safe, more, unchanged). record {
          told = told_of x e fails same free;
          free = free;
          safe = safe;
          more = more;
          unchanged = rw same unchanged;
        }

    going : Obeys w c client round Goes
    going = record {
      elsewhere = λ s p db n rest. elsewhere-Goes s p n db rest;
      attempted = λ status code category db db' n e rest. attempted-Goes n db db' rest;
      refused = λ x db db' n fails e rest. (refused-Goes x n db fails).returned db' e rest;
      audited = λ a db db' n e rest. audited-Goes n db db' rest;
      handed_over = λ s category reply db own sent. tt;
      cut = λ s category db cut. tt;
      settled = λ s response estimated charged reply db db' e own sent. tt;
      unrendered = λ s response charged category reply db db' e own sent. tt;
      released = λ e db db' free done. tt;
      dropped = λ sent db. tt;
      continued = λ e db free safe more. (refl, free, safe, ground arith, refl);
      unnoted = λ status code category db x e. tt;
      unreleased = λ e db x failed. tt;
    }

  -- The next provider is called only after the client of the round has refused, by its call or by
  -- the opening of its stream, with an error that cannot be billed and that permits it, when another
  -- is left; and the round has written the row of the failed attempt, with the client's name, the
  -- ordinal, and the status and category of that error, and nothing else: the reservation stands,
  -- and no money has moved. An answer that is no dict never leads on. (No other request commits
  -- meanwhile.)
  pub turn-FailsOver :
      (index : ℕ) (client : Client) (db : Db) (e : ProviderError) (db' : Db)
      → turn w c index client db ≡ Next.continue e db'
      → FailsOver w c client index e db db'
  turn-FailsOver index client db e db' going_on =
      rw going_on at (turn-Obeys w c index client db (going client index))
