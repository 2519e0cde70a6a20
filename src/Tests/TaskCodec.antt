-- ===== src/Tests/TaskCodec.antt =====
-- A specification as a list of numbers, and back.
use mathlib.Core.Option
use mathlib.Core.Option.{some_inj}
use proxa.Prelude.{◌≡◌, refl, [], some}
use proxa.Prelude.Text.{Text}
use proxa.Types.{
  SecurityProfile, VolumeMount, PortSpec, HealthCheck, Route, ResourceLimits, TaskDef,
}
use proxa.Store.{Codec}
use proxa.Tests.Flat.{
  Flat, flat_pair, flat_via, flat_list, flat_text, flat_bool, flat_ℤ, flat_option,
}

flat_security : Flat SecurityProfile
flat_security =
    flat_via
      (λ r. (
        r.user,
        (
          r.allow_root,
          (
            r.cap_add,
            (
              r.cap_drop,
              (
                r.no_new_privileges,
                (r.read_only_root_fs, (r.seccomp_profile, r.app_armor_profile)),
              ),
            ),
          ),
        ),
      ))
      (λ p. record {
        user = p.0;
        allow_root = p.1.0;
        cap_add = p.1.1.0;
        cap_drop = p.1.1.1.0;
        no_new_privileges = p.1.1.1.1.0;
        read_only_root_fs = p.1.1.1.1.1.0;
        seccomp_profile = p.1.1.1.1.1.1.0;
        app_armor_profile = p.1.1.1.1.1.1.1;
      })
      (λ r. refl)
      (flat_pair flat_text (
        flat_pair flat_bool (
          flat_pair (flat_option (flat_list flat_text)) (
            flat_pair (flat_option (flat_list flat_text)) (
              flat_pair (flat_option flat_bool)
                (flat_pair flat_bool (flat_pair flat_text flat_text)))))))

flat_volume : Flat VolumeMount
flat_volume =
    flat_via (λ r. (r.source, (r.target, r.read_only)))
      (λ p. record { source = p.0; target = p.1.0; read_only = p.1.1 }) (λ r. refl)
      (flat_pair flat_text (flat_pair flat_text flat_bool))

flat_port : Flat PortSpec
flat_port =
    flat_via (λ r. (r.container, (r.host, r.protocol)))
      (λ p. record { container = p.0; host = p.1.0; protocol = p.1.1 }) (λ r. refl)
      (flat_pair flat_ℤ (flat_pair flat_ℤ flat_text))

flat_health : Flat HealthCheck
flat_health =
    flat_via
      (λ r. (
        r.path,
        (r.port, (r.command, (r.interval, (r.timeout, (r.retries, (r.via, r.follow_redirects)))))),
      ))
      (λ p. record {
        path = p.0;
        port = p.1.0;
        command = p.1.1.0;
        interval = p.1.1.1.0;
        timeout = p.1.1.1.1.0;
        retries = p.1.1.1.1.1.0;
        via = p.1.1.1.1.1.1.0;
        follow_redirects = p.1.1.1.1.1.1.1;
      })
      (λ r. refl)
      (flat_pair flat_text (
        flat_pair flat_ℤ (
          flat_pair (flat_list flat_text) (
            flat_pair flat_ℤ (
              flat_pair flat_ℤ (flat_pair flat_ℤ (flat_pair flat_text (flat_option flat_bool))))))))

flat_route : Flat Route
flat_route =
    flat_via (λ r. (r.host, (r.path, (r.l4, (r.port, r.lb_strategy)))))
      (λ p. record {
        host = p.0;
        path = p.1.0;
        l4 = p.1.1.0;
        port = p.1.1.1.0;
        lb_strategy = p.1.1.1.1;
      })
      (λ r. refl)
      (flat_pair flat_text (flat_pair flat_text (flat_pair flat_text (flat_pair flat_ℤ flat_text))))

flat_limits : Flat ResourceLimits
flat_limits =
    flat_via (λ r. (r.cpu, (r.memory, r.pids_limit)))
      (λ p. record { cpu = p.0; memory = p.1.0; pids_limit = p.1.1 }) (λ r. refl)
      (flat_pair flat_text (flat_pair flat_text flat_ℤ))

flat_task : Flat TaskDef
flat_task =
    flat_via
      (λ r. (
        r.meta_version,
        (
          r.project,
          (
            r.name,
            (
              r.image,
              (
                r.replicas,
                (
                  r.stateful,
                  (
                    r.security,
                    (
                      r.env,
                      (
                        r.volumes,
                        (r.expose, (r.strategy, (r.health, (r.resources, (r.schedule, r.routes))))),
                      ),
                    ),
                  ),
                ),
              ),
            ),
          ),
        ),
      ))
      (λ p. record {
        meta_version = p.0;
        project = p.1.0;
        name = p.1.1.0;
        image = p.1.1.1.0;
        replicas = p.1.1.1.1.0;
        stateful = p.1.1.1.1.1.0;
        security = p.1.1.1.1.1.1.0;
        env = p.1.1.1.1.1.1.1.0;
        volumes = p.1.1.1.1.1.1.1.1.0;
        expose = p.1.1.1.1.1.1.1.1.1.0;
        strategy = p.1.1.1.1.1.1.1.1.1.1.0;
        health = p.1.1.1.1.1.1.1.1.1.1.1.0;
        resources = p.1.1.1.1.1.1.1.1.1.1.1.1.0;
        schedule = p.1.1.1.1.1.1.1.1.1.1.1.1.1.0;
        routes = p.1.1.1.1.1.1.1.1.1.1.1.1.1.1;
      })
      (λ r. refl)
      (flat_pair flat_text (
        flat_pair flat_text (
          flat_pair flat_text (
            flat_pair flat_text (
              flat_pair flat_ℤ (
                flat_pair flat_bool (
                  flat_pair flat_security (
                    flat_pair (flat_list (flat_pair flat_text flat_text)) (
                      flat_pair (flat_list flat_volume) (
                        flat_pair (flat_list flat_port) (
                          flat_pair flat_text (
                            flat_pair flat_health (
                              flat_pair flat_limits
                                (flat_pair flat_text (flat_list flat_route)))))))))))))))

-- A codec that reads back what it writes.
pub task_codec : Codec
task_codec = record {
  write = λ spec. flat_task.write spec [];
  read = λ t. Option.map (λ (p : TaskDef × Text). p.0) (flat_task.read t);
}

pub task_codec-reads : (spec : TaskDef) → task_codec.read (task_codec.write spec) ≡ some spec
unfolding task_codec
task_codec-reads spec = rw (flat_task.law spec []) refl
