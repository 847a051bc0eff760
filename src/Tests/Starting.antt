-- ===== src/Tests/Starting.antt =====
-- power_devices/PowerDevice.cpp: a device that starts, and one whose sixth call fails.
use developer_resources.Prelude.{
  ◌⊎◌, err, In, inl, inr, Option, some, Identity, ◌≡◌, refl, true, List, [], ◌++◌, ok, suc, ◌≢◌, ℕ,
  arith,
}
use developer_resources.Data.{ReturnCode, retcode_ok, retcode_error, is_ok}
use developer_resources.Handshaking.{Handshaking, init_handshaking}
use developer_resources.Handshaking.Heartbeats.{Inv, init_handshaking-Inv}
use developer_resources.Selector.{Selector, init_selector}
use developer_resources.Setup.{
  DdsCall, run_steps, create_subscriber, create_datawriter, client_tms, tms,
  operator_intent_request,
}
use developer_resources.Qos.{DataReaderQos, DataWriterQos}
use developer_resources.Qos.DataReader
use developer_resources.Qos.DataWriter
use developer_resources.Qos.Matching.{participant_calls, Match, endpoints-Match}
use developer_resources.Setup.Steps.{
  source_init, load_init, client_init, power_device_init, distribution_init, controller_init,
  server_init_tms, server_init_sim,
}
use developer_resources.Setup.Ordered.{IsOrdered, IsMissing, all_made}
use developer_resources.Timers.{null_pointer}
use developer_resources.Setup.Devices.{
  start_power_device, start_power_device_total, start_IsOrdered, IsStarted,
}
use developer_resources.Tests.{pd1, load_info, all_callbacks}

abbrev no_subscriber : List DdsCall → DdsCall → ReturnCode
no_subscriber made (create_subscriber m d) = retcode_error
no_subscriber made _ = retcode_ok

abbrev fresh : Handshaking
fresh = init_handshaking pd1 (λ n. suc n)

abbrev fresh_selector : Selector
fresh_selector = init_selector pd1 (λ n. suc n) all_callbacks

ids_valid : (n : ℕ) → suc n ≢ 0
ids_valid n h = omega (arith, h)

fresh-Inv : Inv fresh
fresh-Inv = init_handshaking-Inv pd1 (λ n. suc n) ids_valid

start_power_device_total_example :
    ((h' : Handshaking) × (sel' : Selector) × (rc : ReturnCode) × (start_power_device
          (λ made c. retcode_ok)
          (load_info pd1)
          true
          retcode_ok
          fresh
          fresh_selector
        ≡ ok (h', sel', rc))
      × (is_ok rc ≡ true → IsStarted (load_info pd1) fresh fresh_selector h' sel'))
    ⊎ ((start_power_device
            (λ made c. retcode_ok)
            (load_info pd1)
            true
            retcode_ok
            fresh
            fresh_selector
          ≡ err null_pointer)
        × IsMissing
            (λ made c. retcode_ok)
            (run_steps (λ made c. retcode_ok) power_device_init []).0)
unfolding init_handshaking
start_power_device_total_example =
    start_power_device_total (λ made c. retcode_ok) (load_info pd1) true retcode_ok fresh
      fresh_selector fresh-Inv refl

start_IsOrdered_example :
    IsOrdered (run_steps no_subscriber (power_device_init ++ distribution_init) []).0
    × IsOrdered (run_steps no_subscriber (power_device_init ++ source_init) []).0
    × IsOrdered (run_steps no_subscriber (power_device_init ++ load_init) []).0
    × IsOrdered (run_steps no_subscriber controller_init []).0
    × IsOrdered
        (run_steps no_subscriber
          (server_init_tms ++ server_init_sim)
          (all_made controller_init [])).0
    × IsOrdered (run_steps no_subscriber client_init []).0
start_IsOrdered_example = start_IsOrdered no_subscriber

-- The last writer of the client.
intent_writer : In (create_datawriter client_tms tms operator_intent_request) participant_calls
unfolding all_made
intent_writer = inr (inl refl)

endpoints-Match_example :
    (reader : Option DataReaderQos → Identity → DataReaderQos) × (writer : Option DataWriterQos
      → Identity
      → DataWriterQos)
    × (DataReader.fn_map operator_intent_request ≡ some reader)
    × (DataWriter.fn_map operator_intent_request ≡ some writer)
    × Match reader writer
endpoints-Match_example = endpoints-Match client_tms operator_intent_request (inr intent_writer)
