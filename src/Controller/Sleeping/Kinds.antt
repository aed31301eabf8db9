-- ===== src/Controller/Sleeping/Kinds.antt =====
-- The names of the four kinds differ.
use text.Mathlib.TextEquality.{eq_iff}
use kronos_core.Base.{◌≡◌, ◌≢◌, refl, String, str_eq, false, arith}

ne_of_str_eq : (s t : String) → str_eq s t ≡ false → s ≢ t
ne_of_str_eq s t h = λ e. ground (arith, eq_iff s t)

pub deployment-ne-stateful_set : ◌≢◌ {A = String} "Deployment" "StatefulSet"
deployment-ne-stateful_set = ne_of_str_eq "Deployment" "StatefulSet" refl

pub deployment-ne-replica_set : ◌≢◌ {A = String} "Deployment" "ReplicaSet"
deployment-ne-replica_set = ne_of_str_eq "Deployment" "ReplicaSet" refl

pub stateful_set-ne-replica_set : ◌≢◌ {A = String} "StatefulSet" "ReplicaSet"
stateful_set-ne-replica_set = ne_of_str_eq "StatefulSet" "ReplicaSet" refl

pub replica_set-ne-deployment : ◌≢◌ {A = String} "ReplicaSet" "Deployment"
replica_set-ne-deployment = ne_of_str_eq "ReplicaSet" "Deployment" refl

pub stateful_set-ne-deployment : ◌≢◌ {A = String} "StatefulSet" "Deployment"
stateful_set-ne-deployment = ne_of_str_eq "StatefulSet" "Deployment" refl

pub replica_set-ne-stateful_set : ◌≢◌ {A = String} "ReplicaSet" "StatefulSet"
replica_set-ne-stateful_set = ne_of_str_eq "ReplicaSet" "StatefulSet" refl

pub replica_set-ne-cron_job : ◌≢◌ {A = String} "ReplicaSet" "CronJob"
replica_set-ne-cron_job = ne_of_str_eq "ReplicaSet" "CronJob" refl

pub stateful_set-ne-cron_job : ◌≢◌ {A = String} "StatefulSet" "CronJob"
stateful_set-ne-cron_job = ne_of_str_eq "StatefulSet" "CronJob" refl

pub deployment-ne-cron_job : ◌≢◌ {A = String} "Deployment" "CronJob"
deployment-ne-cron_job = ne_of_str_eq "Deployment" "CronJob" refl
