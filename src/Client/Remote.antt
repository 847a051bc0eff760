-- ===== src/Client/Remote.antt =====
-- Commands of cli/CLIClient.cpp carried out by the controllers of controller/: what the client writes, and
-- what the listeners of the controllers make of it.
use developer_resources.Prelude.{
  ℕ, ◌<◌, ◌≡◌, refl, ap, true, false, some, List, [], ◌∷◌, Identity, id_eq, id_eq_refl, length, ok,
  find, contains, codes, In, All, inl, inr, is_empty,
}
use developer_resources.Data.{ReturnCode, retcode_ok, OperatorPriorityType}
use developer_resources.CliServer.{
  CliServer, OperatorIntent, on_operator_intents, last_target, first_device, start_stop_device,
}
use developer_resources.Handshaking.{Handshaking, stop_heartbeats}
use developer_resources.Handshaking.Heartbeats.{Inv, running, stop_heartbeats-Inv}
use developer_resources.CliServer.Commands.{
  ControllerCmdType, cct_stop, first_command, on_controller_commands,
}
use developer_resources.Client.{ControllerMap, intents_to}
use developer_resources.Client.Controllers.{Known, available_info, intents_to_iff}
use developer_resources.Client.Gathering.{
  DevicesOf, Answers, is_empty_map, keys, intents, collected, send_start_stop_request,
}
use developer_resources.Client.Commands.{
  enter, dispatch, tolower, controller_cmd, send_controller_cmd,
}
use developer_resources.Client.Lines.{Line, Line-parse}

-- A command is for the controller it names alone.
on_controller_commands_other :
    (id : Identity) (type : ControllerCmdType) (s : Handshaking)
    → id_eq id s.device_id ≡ false
    → on_controller_commands retcode_ok ((true, id, type) ∷ []) s ≡ ok s
unfolding on_controller_commands
on_controller_commands_other id type s other = rw (other, first_command) refl

-- The user enters a line of a word that is "suspend" in any letter case and the identity of a
-- controller that the client knows. The client writes a command to stop to this controller; when it
-- arrives there, and the invariant of the heartbeats holds, no heartbeats run any more and the ones
-- sent stay; a controller of another identity stays as it is.
pub suspend_entered :
    (line op : Identity) (m : ControllerMap) (s : Handshaking)
    → length line < 18446744073709551616
    → Line line op (some s.device_id)
    → tolower op ≡ codes "suspend"
    → contains (find s.device_id m) ≡ true
    → Inv s
    → (enter line ≡ ok (controller_cmd cct_stop (some s.device_id)))
      × (send_controller_cmd cct_stop (some s.device_id) m ≡ some (s.device_id, cct_stop))
      × ((s' : Handshaking) × (on_controller_commands retcode_ok
              ((true, s.device_id, cct_stop) ∷ [])
              s
            ≡ ok s')
          × Inv s'
          × (running s' ≡ false)
          × (s'.heartbeats ≡ s.heartbeats))
      × ((other : Handshaking)
          → id_eq s.device_id other.device_id ≡ false
          → on_controller_commands retcode_ok ((true, s.device_id, cct_stop) ∷ []) other ≡ ok other)
unfolding enter dispatch id_eq send_controller_cmd on_controller_commands first_command
suspend_entered line op m s small is_line lowered known v =
    let (v', off, sent, num) = stop_heartbeats-Inv s v in
    (
      rw (Line-parse line op (some s.device_id) is_line small, enter) (rw lowered refl),
      rw known refl,
      (stop_heartbeats s, rw (id_eq_refl s.device_id) refl, v', off, sent),
      λ other differs. on_controller_commands_other s.device_id cct_stop other differs,
    )

In-intents :
    (pd_id mc_id : Identity) (opt : OperatorPriorityType) (ids : List Identity)
    → In mc_id ids
    → In
        (record { requesting_device_id = mc_id; devices = (pd_id, opt) ∷ [] })
        (intents pd_id opt ids)
In-intents pd_id mc_id opt [] there = absurd there
In-intents pd_id mc_id opt (id ∷ ids) (inl e) =
    inl (ap (λ i. record { requesting_device_id = i; devices = (pd_id, opt) ∷ [] }) e)
In-intents pd_id mc_id opt (id ∷ ids) (inr there) = inr (In-intents pd_id mc_id opt ids there)

-- What the server of a controller makes of an intent for it that names one device.
on_operator_intents_own :
    (pd_id : Identity) (opt : OperatorPriorityType) (written : ReturnCode) (s : CliServer)
    → is_empty pd_id ≡ false
    → on_operator_intents retcode_ok
        ((
          true,
          record { requesting_device_id = s.controller.device_id; devices = (pd_id, opt) ∷ [] },
        )
          ∷ [])
        written
        s
      ≡ start_stop_device pd_id opt written s
unfolding on_operator_intents last_target first_device
on_operator_intents_own pd_id opt written s named =
    rw (id_eq_refl s.controller.device_id) (rw named refl)

-- The user has a device started or stopped by its identity, which is not empty, when the client has
-- collected devices before and still knows all the controllers that it has them from. Then an intent
-- for this device is written to each of these controllers that is available, and the server of the
-- controller does with it what `start_stop_device` does for the device.
pub send_start_stop_request_reaches :
    (pd_id : Identity) (opt : OperatorPriorityType) (before now : ℕ) (answers : Identity → Answers)
    (controllers : ControllerMap) (m : DevicesOf) (s : CliServer) (written : ReturnCode)
    → is_empty pd_id ≡ false
    → is_empty_map m ≡ false
    → All (Known controllers) (keys m)
    → In s.controller.device_id (keys m)
    → available_info now (find s.controller.device_id controllers) ≡ true
    → (oi : OperatorIntent) × In oi
        (send_start_stop_request (some pd_id) opt before now answers controllers m).1
      × (on_operator_intents retcode_ok ((true, oi) ∷ []) written s
          ≡ start_stop_device pd_id opt written s)
unfolding send_start_stop_request collected
send_start_stop_request_reaches pd_id opt before now answers controllers m s written named some_map
      known asked on =
    (
      record { requesting_device_id = s.controller.device_id; devices = (pd_id, opt) ∷ [] },
      rw (some_map, collected)
          (In-intents pd_id s.controller.device_id opt (intents_to now controllers (keys m))
            ((intents_to_iff now controllers (keys m) s.controller.device_id known).1 (asked, on))),
      on_operator_intents_own pd_id opt written s named,
    )
