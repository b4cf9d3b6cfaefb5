-- ===== src/Scheduler/Schema/Trimmed.antt =====
-- What a parse leaves alone, and that parsing what has been parsed changes nothing.
use alfred_ai.Base.{
  String, ◌≡◌, refl, ap, Option, none, some, [], ◌∷◌, arith, inl, inr, Option-cases,
}
use alfred_ai.Scheduler.Model.{
  Task, Snapshot, WatchDefinition, herdr_agent, run_status, file_exists, TaskOwner, EventMatch,
  NotificationDestination,
}
use alfred_ai.Scheduler.Schema.{
  Zod, parse_task, parse_snapshot, trim_task, map_option, trim_owner, trim_watch, trim_event_match,
  trim_destination,
}

module _ (z : Zod) (trim_trim : (s : String) → z.trim (z.trim s) ≡ z.trim s) where
  map_option-trim :
      (o : Option String) → map_option z.trim (map_option z.trim o) ≡ map_option z.trim o
  map_option-trim none = refl
  map_option-trim (some s) = ap some (trim_trim s)

  trim_owner_idem : (o : TaskOwner) → trim_owner z (trim_owner z o) ≡ trim_owner z o
  unfolding trim_owner
  trim_owner_idem o =
      cc (trim_trim o.session_id, trim_trim o.principal_id, map_option-trim o.channel_key)

  trim_destination_idem :
      (d : Option NotificationDestination)
      → map_option (trim_destination z) (map_option (trim_destination z) d)
        ≡ map_option (trim_destination z) d
  unfolding trim_destination
  trim_destination_idem none = refl
  trim_destination_idem (some d) = cc (trim_trim d.channel_key, trim_trim d.principal_id)

  trim_watch_idem :
      (w : Option WatchDefinition)
      → map_option (trim_watch z) (map_option (trim_watch z) w) ≡ map_option (trim_watch z) w
  unfolding trim_watch
  trim_watch_idem none = refl
  trim_watch_idem (some (herdr_agent a b c)) = cc (trim_trim a, trim_trim b, map_option-trim c)
  trim_watch_idem (some (run_status a)) = cc (trim_trim a)
  trim_watch_idem (some (file_exists a)) = cc (trim_trim a)

  trim_event_match_idem :
      (m : Option EventMatch)
      → map_option (trim_event_match z) (map_option (trim_event_match z) m)
        ≡ map_option (trim_event_match z) m
  unfolding trim_event_match
  trim_event_match_idem none = refl
  trim_event_match_idem (some m) = cc (
    map_option-trim m.workspace_id,
    map_option-trim m.pane_id,
    map_option-trim m.agent_kind,
    map_option-trim m.source,
  )

  trim_task_idem : (t : Task) → trim_task z (trim_task z t) ≡ trim_task z t
  unfolding trim_task
  trim_task_idem t = cc (
    trim_trim t.label,
    trim_owner_idem t.owner,
    trim_trim t.created_by_run_id,
    trim_watch_idem t.watch_definition,
    trim_event_match_idem t.event_match,
    map_option-trim t.active_run_id,
    map_option-trim t.claim_owner,
    map_option-trim t.last_error_code,
    map_option-trim t.last_observation_digest,
    trim_destination_idem t.notification_destination,
  )

  parse_task_idem : (t u : Task) → parse_task z t ≡ some u → parse_task z u ≡ some u
  unfolding parse_task
  parse_task_idem t u e = ground (arith, trim_task_idem t)

  pub parse_snapshot_idem :
      (ts us : Snapshot) → parse_snapshot z ts ≡ some us → parse_snapshot z us ≡ some us
  unfolding parse_snapshot
  parse_snapshot_idem [] [] e = refl
  parse_snapshot_idem [] (u ∷ us) e = cc
  parse_snapshot_idem (t ∷ ts) us e = elim (Option-cases (parse_task z t)) [
    | inl bad ↦ ground arith
    | inr (v, parsed) ↦ elim (Option-cases (parse_snapshot z ts)) [
      | inl broken ↦ ground arith
      | inr (vs, later) ↦
          let same : us ≡ v ∷ vs = ground arith in
          rw same (ground (arith, parse_task_idem t v, parse_snapshot_idem ts vs later))
    ]
  ]
