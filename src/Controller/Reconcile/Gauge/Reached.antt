-- ===== src/Controller/Reconcile/Gauge/Reached.antt =====
-- The states that requests and the world outside lead to, from a process that has just started.
use kronos_core.Base.{ℕ, ◌≡◌, Bool, true, false, some}
use kronos_core.Base.{arith}
use kronos_core.Cluster.{Codec, Cluster, Labels}
use kronos_core.Controller.Reconcile.{Setting, Request, reconcile}
use kronos_core.Controller.Reconcile.Gauge.{IsGauge, IsCurrent, shown, labels_read}
use kronos_core.Controller.Reconcile.Gauge.Current.{reconcile-IsCurrent}

module _ {codec : Codec} (cluster : Cluster codec) (series : Labels → cluster.State → Bool)
    (setting : Setting) where
  -- One request, or a change from outside: it shows no series (a restart hides them all), and leaves
  -- the status of each app alone. It deletes apps, and makes them where no series is shown for their
  -- name.
  pub data Step : cluster.State → cluster.State → Type 0 where
    request :
        (now : ℕ) (req : Request) (st : cluster.State)
        → Step st (reconcile cluster setting now req st).1
    outside :
        {st st' : cluster.State}
        → ((l : Labels) → series l st' ≡ true → series l st ≡ true)
        → ((l : Labels)
            → series l st ≡ true
            → (now : Labels) → labels_read cluster l.name l.namespace st' ≡ some now
            → labels_read cluster l.name l.namespace st ≡ some now)
        → Step st st'

  pub data Reached (start : cluster.State) : cluster.State → Type 0 where
    started : Reached start start
    next : {st st' : cluster.State} → Reached start st → Step st st' → Reached start st'

  module _ (laws : IsGauge cluster series) where
    Step-IsCurrent :
        {st st' : cluster.State}
        → Step st st'
        → IsCurrent (shown cluster series st)
        → IsCurrent (shown cluster series st')
    Step-IsCurrent (request now req st) current =
        reconcile-IsCurrent cluster series laws setting req now st current
    Step-IsCurrent (outside fewer before) current = λ l visible now reads.
        let visible' = fewer l visible in current l visible' now (before l visible' now reads)

    -- Let the API and the Prometheus client do as they document (`IsGauge`), and let the process
    -- start with no series shown. Then after any requests, however they ended, and any changes
    -- outside that show no series, leave the statuses alone and make apps only where no series is
    -- shown for their name, each series that is shown for an app that can be read has the labels of
    -- its status: none of an earlier status is left.
    pub Reached-IsCurrent :
        (start st : cluster.State)
        → ((l : Labels) → series l start ≡ false)
        → Reached start st
        → (l : Labels) → series l st ≡ true
        → (now : Labels) → labels_read cluster l.name l.namespace st ≡ some now
        → l ≡ now
    Reached-IsCurrent start _ none_shown started =
        λ l visible now reads. absurd (let hidden = none_shown l in ground arith)
    Reached-IsCurrent start st' none_shown (next {st} reached step) =
        Step-IsCurrent step (Reached-IsCurrent start st none_shown reached)
