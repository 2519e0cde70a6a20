-- ===== src/Reconciler/Cycle/Persisted.antt =====
-- What pass 4 leaves of the status of a service.
use proxa.Prelude.{◌≡◌, refl, ◌∙◌, false, List, some, if◌then◌else◌}
use proxa.Prelude.Text.{Text, text_eq}
use proxa.Types.{Service}
use proxa.Store.{ok, Tables, key_eq, put_service, get_service}
use proxa.Store.Access.{key_of, get_service-put_service}
use proxa.Reconciler.Status.{aggregate}
use proxa.Reconciler.Status.Table.{aggregate-not_nil}
use proxa.Reconciler.Cycle.{Setting, State, snapshots_of, persisted, persist_status}

-- Where the aggregated status differs from the one that the tick read, and JSON reads the specification
-- back, a service reads as the tick read it, with the new status: the specification that the table had
-- by then is overwritten. The other services are as before.
pub persist_status-overwrites :
    (s : Setting) (project : Text) (svc : Service) (ids : List Text) (st : State) (u : Tables)
    (p n : Text)
    → s.codec.read (s.codec.write svc.spec) ≡ some svc.spec
    → text_eq (aggregate svc.spec.replicas (snapshots_of st.manager ids)) svc.status ≡ false
    → put_service s.codec s.encoding s.stamp project
        (record svc { status = aggregate svc.spec.replicas (snapshots_of st.manager ids) })
        st.tables
      ≡ ok u
    → get_service s.codec p n (persist_status s project svc ids st).tables ≡ (
        if key_eq (key_of project svc.name) (key_of p n)
        then ok (record svc { status = aggregate svc.spec.replicas (snapshots_of st.manager ids) })
        else get_service s.codec p n st.tables)
unfolding persist_status persisted
persist_status-overwrites s project svc ids st u p n reads changed put =
    let status = aggregate svc.spec.replicas (snapshots_of st.manager ids) in
    rw (changed, put)
      (get_service-put_service s.codec s.encoding s.stamp project (record svc { status = status })
          st.tables u p n reads put
        ∙ rw (aggregate-not_nil svc.spec.replicas (snapshots_of st.manager ids)) refl)
