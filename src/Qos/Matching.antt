-- ===== src/Qos/Matching.antt =====
-- Whether readers and writers match, and what the calls before leave in the static objects.
use developer_resources.Prelude.{
  ℕ, ◌≡◌, refl, ◌∙◌, sym, ap, ◌⊎◌, subst, Bool, true, ◌&&◌, arith, inl, inr, In, contains, ◌++◌,
  Option, none, some, List, [], ◌∷◌, Identity, length,
}
use developer_resources.Setup.{
  Topic, device_info, heartbeat, operator_intent_request, energy_start_stop_request, reply,
  active_microgrid_controller_state, DdsCall, Method, create_datareader, create_datawriter, tms,
}
use developer_resources.Setup.Steps.{
  power_device_init, distribution_init, source_init, load_init, controller_init, server_init_tms,
  client_init_tms,
}
use developer_resources.Setup.Ordered.{all_made}
use developer_resources.Qos.{DataReaderQos, DataWriterQos, resize, memcpy, init_user_data}
use developer_resources.Qos.Profiles.{
  init_endpoint_publish_last_profile, init_endpoint_medium_profile, init_endpoint_command_profile,
  init_endpoint_reply_profile,
}
use developer_resources.Qos.DataReader
use developer_resources.Qos.DataWriter

memcpy-resize : (ys xs : List ℕ) → memcpy (resize (length ys) xs) ys ≡ ys
unfolding memcpy resize
memcpy-resize [] xs = refl
memcpy-resize (y ∷ ys) [] = ap (λ zs. y ∷ zs) (memcpy-resize ys [])
memcpy-resize (y ∷ ys) (x ∷ xs) = ap (λ zs. y ∷ zs) (memcpy-resize ys xs)

-- The user data are the bytes of the identity, whatever stood there before and however long it was.
pub init_user_data_lem :
    (value : List ℕ) (device_id : Identity) → init_user_data value device_id ≡ device_id
unfolding init_user_data
init_user_data_lem value device_id = memcpy-resize device_id value

-- The static object after calls with these identities, the latest first.
unfoldable pub after_calls : {Q : Type 0} → (Option Q → Identity → Q) → List Identity → Option Q
after_calls get [] = none
after_calls get (i ∷ ids) = some (get (after_calls get ids) i)

-- The calls that need a QoS of the TMS topics.
abbrev has_entry : DdsCall → Bool
has_entry (create_datareader m tms t) = contains (DataReader.fn_map t)
has_entry (create_datawriter m tms t) = contains (DataWriter.fn_map t)
has_entry _ = true

-- The calls of all participants, each behind the others.
abbrev pub participant_calls : List DdsCall
participant_calls =
    all_made
      (power_device_init ++ distribution_init ++ source_init ++ load_init ++ controller_init
        ++ server_init_tms ++ client_init_tms)
      []

and_left : (a b : Bool) → a && b ≡ true → a ≡ true
and_left a b h = ground (arith, h)

and_right : (a b : Bool) → a && b ≡ true → b ≡ true
and_right a b h = ground (arith, h)

unfoldable all_of : (DdsCall → Bool) → List DdsCall → Bool
all_of p [] = true
all_of p (x ∷ xs) = p x && all_of p xs

all_of-In :
    (p : DdsCall → Bool) (calls : List DdsCall) (c : DdsCall)
    → all_of p calls ≡ true
    → In c calls
    → p c ≡ true
unfolding all_of
all_of-In p [] c h there = elim there [ ]
all_of-In p (x ∷ calls) c h (inl e) = subst (λ y. p y ≡ true) e (and_left (p x) (all_of p calls) h)
all_of-In p (x ∷ calls) c h (inr there) =
    all_of-In p calls c (and_right (p x) (all_of p calls) h) there

calls_have_entries : all_of has_entry participant_calls ≡ true
unfolding all_made all_of DataReader.fn_map DataWriter.fn_map
calls_have_entries = refl

-- What the two functions return, after any calls made before.
abbrev pub Match :
    (Option DataReaderQos → Identity → DataReaderQos)
    → (Option DataWriterQos → Identity → DataWriterQos)
    → Type 0
Match reader writer =
    (before before' : List Identity) (i j : Identity)
    → ((reader (after_calls reader before) i).endpoint
        ≡ (writer (after_calls writer before') j).endpoint)
      × ((reader (after_calls reader before) i).user_data ≡ i)
      × ((writer (after_calls writer before') j).user_data ≡ j)

reader_keeps :
    (q : DataReaderQos) (ids : List Identity)
    → (DataReader.value_or q (
        after_calls
          (λ made i. DataReader.set_user_data i (DataReader.value_or q made))
          ids)).endpoint
      ≡ q.endpoint
unfolding after_calls
reader_keeps q [] = refl
reader_keeps q (i ∷ ids) = reader_keeps q ids

writer_keeps :
    (q : DataWriterQos) (ids : List Identity)
    → (DataWriter.value_or q (
        after_calls
          (λ made i. DataWriter.set_user_data i (DataWriter.value_or q made))
          ids)).endpoint
      ≡ q.endpoint
unfolding after_calls
writer_keeps q [] = refl
writer_keeps q (i ∷ ids) = writer_keeps q ids

-- Functions made from a reader's and a writer's QoS with the same endpoint policies match.
profiles-Match :
    (r : DataReaderQos) (w : DataWriterQos)
    → r.endpoint ≡ w.endpoint
    → Match
        (λ made i. DataReader.set_user_data i (DataReader.value_or r made))
        (λ made i. DataWriter.set_user_data i (DataWriter.value_or w made))
profiles-Match r w same before before' i j = (
  reader_keeps r before ∙ same ∙ sym (writer_keeps w before'),
  init_user_data_lem _ i,
  init_user_data_lem _ j,
)

have_same : (t : Topic) → contains (DataWriter.fn_map t) ≡ contains (DataReader.fn_map t)
unfolding DataReader.fn_map DataWriter.fn_map
have_same device_info = refl
have_same heartbeat = refl
have_same operator_intent_request = refl
have_same energy_start_stop_request = refl
have_same reply = refl
have_same active_microgrid_controller_state = refl
have_same _ = refl

publish_last-Match : Match DataReader.get_publish_last DataWriter.get_publish_last
unfolding DataReader.get_publish_last DataWriter.get_publish_last
publish_last-Match =
    profiles-Match (DataReader.init_datareader_common init_endpoint_publish_last_profile)
      (DataWriter.init_datawriter_common init_endpoint_publish_last_profile) refl

medium-Match : Match DataReader.get_medium DataWriter.get_medium
unfolding DataReader.get_medium DataWriter.get_medium
medium-Match =
    profiles-Match (DataReader.init_datareader_common init_endpoint_medium_profile)
      (DataWriter.init_datawriter_common init_endpoint_medium_profile) refl

command-Match : Match DataReader.get_command DataWriter.get_command
unfolding DataReader.get_command DataWriter.get_command
command-Match =
    profiles-Match (DataReader.init_datareader_common init_endpoint_command_profile)
      (DataWriter.init_datawriter_common init_endpoint_command_profile) refl

reply-Match : Match DataReader.get_reply DataWriter.get_reply
unfolding DataReader.get_reply DataWriter.get_reply
reply-Match =
    profiles-Match (DataReader.init_datareader_common init_endpoint_reply_profile)
      (DataWriter.init_datawriter_common init_endpoint_reply_profile) refl

entries-Match :
    (t : Topic)
    → contains (DataReader.fn_map t) ≡ true
    → (reader : Option DataReaderQos → Identity → DataReaderQos) × (writer : Option DataWriterQos
        → Identity
        → DataWriterQos)
      × (DataReader.fn_map t ≡ some reader)
      × (DataWriter.fn_map t ≡ some writer)
      × Match reader writer
unfolding DataReader.fn_map DataWriter.fn_map
entries-Match device_info h =
    (DataReader.get_publish_last, DataWriter.get_publish_last, refl, refl, publish_last-Match)
entries-Match heartbeat h = (DataReader.get_medium, DataWriter.get_medium, refl, refl, medium-Match)
entries-Match operator_intent_request h =
    (DataReader.get_command, DataWriter.get_command, refl, refl, command-Match)
entries-Match energy_start_stop_request h =
    (DataReader.get_command, DataWriter.get_command, refl, refl, command-Match)
entries-Match reply h = (DataReader.get_reply, DataWriter.get_reply, refl, refl, reply-Match)
entries-Match active_microgrid_controller_state h =
    (DataReader.get_publish_last, DataWriter.get_publish_last, refl, refl, publish_last-Match)
entries-Match _ h = cc h

-- Each reader and each writer that a participant makes on a TMS topic finds its QoS in `fn_map`,
-- and then the topic has one for readers and one for writers. Whatever was asked for before in
-- either process, these two agree in all the policies that they share, and the user data of each
-- are the identity it was asked for.
pub endpoints-Match :
    (m : Method) (t : Topic)
    → In (create_datareader m tms t) participant_calls
      ⊎ In (create_datawriter m tms t) participant_calls
    → (reader : Option DataReaderQos → Identity → DataReaderQos) × (writer : Option DataWriterQos
        → Identity
        → DataWriterQos)
      × (DataReader.fn_map t ≡ some reader)
      × (DataWriter.fn_map t ≡ some writer)
      × Match reader writer
endpoints-Match m t (inl read) =
    entries-Match t
      (all_of-In has_entry participant_calls (create_datareader m tms t) calls_have_entries read)
endpoints-Match m t (inr written) = entries-Match t (
    sym (have_same t)
    ∙ all_of-In has_entry participant_calls (create_datawriter m tms t) calls_have_entries written)
