-- ===== src/World/Extends.antt =====
-- Actions only add to the history and to the log, in step with one another, and keep the chain.
use oracle_patching.Prelude.{
  String, ◌≡◌, refl, sym, ap, ◌∙◌, subst, Bool, true, false, List, [], ◌∷◌, ◌++◌, append-nil,
  append_assoc, arith, if◌then◌else◌,
}
use oracle_patching.Json.{Json}
use oracle_patching.Errors.{Exc, Result, ok, raise}
use oracle_patching.Audit.{AuditEntry, Log, EventType, event_name, verify_chain}
use oracle_patching.Audit
use oracle_patching.Audit.Append.{passed, append-verify_chain}
use oracle_patching.World.{
  World, Env, M, ◌>>=◌, continue, pure, throw, print, Event, ran, logged, printed, asked, Command,
  record_event, run_process, input, now_iso, now_stamp, audit_append, written,
}
use oracle_patching.World.Trace.{entries, entries-append}

-- From `w` to `w'`, events were added, the entries among them were added to the log, and a log that
-- was a chain still is one.
pub record Extends (sha256_hex : String → String) (w w' : World) : Type 0 where
  pub added : List Event
  pub history : w'.events ≡ w.events ++ added
  pub logs : w'.log ≡ w.log ++ entries added
  pub chained : verify_chain sha256_hex w.log ≡ passed → verify_chain sha256_hex w'.log ≡ passed

module _ (sha256_hex : String → String) where
  pub Extends-refl : (w : World) → Extends sha256_hex w w
  Extends-refl w = record {
    added = [];
    history = sym (append-nil w.events);
    logs = sym (append-nil w.log);
    chained = λ h. h;
  }

  pub Extends-trans :
      (u v w : World) → Extends sha256_hex u v → Extends sha256_hex v w → Extends sha256_hex u w
  Extends-trans u v w p q = record {
    added = p.added ++ q.added;
    history = q.history ∙ ap (λ l. l ++ q.added) p.history ∙ append_assoc u.events p.added q.added;
    logs =
        q.logs
        ∙ ap (λ l. l ++ entries q.added) p.logs
        ∙ append_assoc u.log (entries p.added) (entries q.added)
        ∙ ap (λ l. u.log ++ l) (sym (entries-append p.added q.added));
    chained = λ h. q.chained (p.chained h);
  }

module _ (env : Env) where
  -- `m` extends every world that it is run in, whether it returns or raises.
  pub record Adds {A : Type 0} (m : M A) : Type 0 where
    pub at : (w : World) → Extends env.sha256_hex w (m w).1

  pub Adds-pure : {A : Type 0} (a : A) → Adds (pure a)
  Adds-pure a = record { at = λ w. Extends-refl env.sha256_hex w }

  pub Adds-throw : {A : Type 0} (e : Exc) → Adds (throw {A = A} e)
  Adds-throw e = record { at = λ w. Extends-refl env.sha256_hex w }

  Adds-continue :
      {A B : Type 0} (r : Result A) (k : A → M B) → ((a : A) → Adds (k a)) → Adds (continue r k)
  Adds-continue (ok a) k h = record { at = (h a).at }
  Adds-continue (raise e) k h = record { at = λ w. Extends-refl env.sha256_hex w }

  pub Adds-bind :
      {A B : Type 0} (m : M A) (k : A → M B) → Adds m → ((a : A) → Adds (k a)) → Adds (m >>= k)
  Adds-bind m k p q = record {
    at = λ w.
        Extends-trans env.sha256_hex w (m w).1 _ (p.at w) ((Adds-continue (m w).0 k q).at (m w).1);
  }

  pub Adds-if : {A : Type 0} (b : Bool) (m n : M A) → Adds m → Adds n → Adds (if b then m else n)
  Adds-if true m n p q = p
  Adds-if false m n p q = q

  pub Adds-print : (text : String) → Adds (print text)
  Adds-print text = record {
    at = λ w. record {
      added = printed text ∷ [];
      history = refl;
      logs = sym (append-nil w.log);
      chained = λ h. h;
    };
  }

  pub Adds-run_process : (c : Command) → Adds (run_process env c)
  unfolding run_process
  Adds-run_process c = record {
    at = λ w. record {
      added = ran c ∷ [];
      history = refl;
      logs = sym (append-nil w.log);
      chained = λ h. h;
    };
  }

  input-world :
      (prompt : String) (w : World) → (input env prompt w).1 ≡ record_event (asked prompt) w
  unfolding input
  input-world prompt w = ground arith

  pub Adds-input : (prompt : String) → Adds (input env prompt)
  Adds-input prompt = record {
    at = λ w. subst (Extends env.sha256_hex w) (sym (input-world prompt w)) (record {
      added = asked prompt ∷ [];
      history = refl;
      logs = sym (append-nil w.log);
      chained = λ h. h;
    });
  }

  pub Adds-now_iso : Adds (now_iso env)
  Adds-now_iso = record {
    at = λ w. record {
      added = [];
      history = sym (append-nil w.events);
      logs = sym (append-nil w.log);
      chained = λ h. h;
    };
  }

  pub Adds-now_stamp : Adds (now_stamp env)
  Adds-now_stamp = record {
    at = λ w. record {
      added = [];
      history = sym (append-nil w.events);
      logs = sym (append-nil w.log);
      chained = λ h. h;
    };
  }

  log-append :
      (t : EventType) (payload : Json) (w : World)
      → (audit_append env t payload w).1.log ≡ w.log ++ written env t payload w ∷ []
  unfolding audit_append Audit.append
  log-append t payload w = refl

  pub Adds-audit_append : (t : EventType) (payload : Json) → Adds (audit_append env t payload)
  unfolding audit_append
  Adds-audit_append t payload = record {
    at = λ w. record {
      added = logged (written env t payload w) ∷ [];
      history = refl;
      logs = log-append t payload w;
      chained =
          append-verify_chain env.sha256_hex (env.isoformat w.readings) (event_name t) payload
            w.log;
    };
  }

pub ruleset adds_rules = (
  Adds-pure, Adds-throw, Adds-bind, Adds-if, Adds-print, Adds-run_process, Adds-input, Adds-now_iso,
  Adds-now_stamp, Adds-audit_append,
)
