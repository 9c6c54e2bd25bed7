-- ===== src/Commands/Status.antt =====
-- What the `status` command of src/commands.py prints of the status file.
use sensorctl.Prelude.{
  String, Option, none, some, [], ◌∷◌, if◌then◌else◌, text_less, ◌<>◌, Result, ok, raise,
  attribute_error,
}
use sensorctl.Prelude.{◌>>=◌ as ◌>>>=◌}
use sensorctl.Prelude.Dict.{Dict, lookup}
use sensorctl.Prelude.Exec.{Exec, pure, lift, ◌>>=◌, ◌>>◌}
use sensorctl.Commands.Shell.{Json, null, number, text, object, end, members, Machine, Shell, print}

-- `value.items()`, and `value.get(key, default)`, which only an object has.
abbrev pub items : Json → Result (Dict Json)
items (object o) = ok (members o)
items _ = raise attribute_error "the value has no attribute 'items'"

abbrev pub or_default : Json → Option Json → Json
or_default default none = default
or_default default (some v) = v

abbrev pub get : Json → String → Json → Result Json
get (object o) key default = ok (or_default default (lookup key (members o)))
get _ key default = raise attribute_error "the value has no attribute 'get'"

-- `sorted(d.items())`: the keys of a dict differ, so the order of its values is never asked for.
unfoldable pub insert_sorted : String × Json → Dict Json → Dict Json
insert_sorted p [] = p ∷ []
insert_sorted p (q ∷ ps) =
    let rest = insert_sorted p ps in if text_less p.0 q.0 then p ∷ q ∷ ps else q ∷ rest

unfoldable pub sort_items : Dict Json → Dict Json
unfolding insert_sorted
sort_items [] = []
sort_items (p ∷ ps) = insert_sorted p (sort_items ps)

module _ {D W : Type 0} (m : Machine D W) where
  open m use {text_of}

  abbrev pub sensor_line : String → Json → Result String
  sensor_line sensor_id status = get status "successful_reads" (number "0") >>>= λ reads.
      get status "failed_reads" (number "0") >>>= λ failures.
      get status "missed_deadlines" (number "0") >>>= λ missed.
      get status "dropped_samples" (number "0") >>>= λ dropped.
      get status "last_error" null >>>= λ last_error. ok (
        "sensor "
        <> (sensor_id
            <> (": reads="
                <> (text_of reads
                    <> (" failures="
                        <> (text_of failures
                            <> (" missed="
                                <> (text_of missed
                                    <> (" dropped="
                                        <> (text_of dropped
                                            <> (" error=" <> text_of last_error)))))))))))

  unfoldable pub print_sensors : Dict Json → Exec (Shell W) (Unit {0})
  print_sensors [] = pure tt
  print_sensors ((sensor_id, status) ∷ rest) =
      let others = print_sensors rest in
      do line ← lift (sensor_line sensor_id status); print line; others

  abbrev pub queue_line : Json → Result String
  queue_line queue_status = get queue_status "size" (text "unknown") >>>= λ size.
      get queue_status "capacity" (text "unknown") >>>= λ capacity.
      ok ("queue: " <> (text_of size <> ("/" <> text_of capacity)))

  unfoldable pub print_payload : Json → Exec (Shell W) (Unit {0})
  unfolding print_sensors sort_items
  print_payload payload = do
    print "runtime: available"
    queue_status ← lift (get payload "queue" (object end))
    line ← lift (queue_line queue_status)
    print line
    last_commit_at ← lift (get payload "last_commit_at" null)
    print ("last_commit_at: " <> text_of last_commit_at)
    sensors ← lift (get payload "sensors" (object end) >>>= items)
    print_sensors (sort_items sensors)
