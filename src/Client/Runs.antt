-- ===== src/Client/Runs.antt =====
-- What the rounds of Run keep, and what its end does to the handles.
use azure_client_tools.Base.{
  ℕ, ◌≡◌, refl, sym, ap, subst, ◌∙◌, ◌⊎◌, inl, inr, true, false, List, [], ◌∷◌, ◌++◌, append-nil,
  append_assoc, ok, Result-cases, Bool-cases, arith,
}
use azure_client_tools.Client.{
  Parameters, notifications, stop_signalled, Client, new_client, Round, enable_notifications,
  disconnect, connect, signal_status, destruction, run_round, run_rounds, Ended, continues, leaves,
  throws, ended, destroy_host, deinitialize, deinitialize_connection, finish, is_due,
}
use azure_client_tools.Client.Handles.{
  told, disconnect-IsReleased, connect-Inv, deinitialize_connection-destroyed,
  deinitialize_connection-created, enable_notifications-log, created-told, destroyed-told,
  destroyed-destruction, created-destruction,
}
use azure_client_tools.Client.Balance.{
  held, as_list, Inv, created-append, destroyed-append, handles_created, handles_destroyed,
}

-- The run is in a state, inside its loop or just behind it.
abbrev pub Arrives : Ended → Client → Type 0
Arrives e c = (e ≡ continues c) ⊎ (e ≡ leaves c)

-- How a round that does not leave Run by an exception goes: nothing happens, or the client connects
-- again.
pub data Went (p : Parameters) (r : Round) (c c' : Client) : Type 0 where
  unchanged : c' ≡ c → Went p r c c'
  reconnected : (d : Client) → disconnect r c ≡ ok d → connect p r d ≡ ok c' → Went p r c c'

run_round-Went :
    (p : Parameters) (r : Round) (c c' : Client) → Arrives (run_round p r c) c' → Went p r c c'
unfolding run_round ended
run_round-Went p r c c' a = elim (Bool-cases r.stop) [
  | inl s ↦ unchanged (ground (arith, a, s))
  | inr go ↦ elim (Bool-cases (is_due r c)) [
    | inr not_due ↦ unchanged (ground (arith, a, go, not_due))
    | inl due ↦ elim (Result-cases (disconnect r c)) [
      | inr (x, f) ↦ absurd (ground (arith, a, go, due, f))
      | inl (d, f) ↦ elim (Result-cases (connect p r d)) [
        | inr (x, g) ↦ absurd (ground (arith, a, go, due, f, g))
        | inl (c'', g) ↦ reconnected d f (g ∙ ap ok (ground (arith, a, go, due, f, g)))
      ]
    ]
  ]
]

-- What holds at first and is kept by each round holds wherever the run arrives.
pub run_rounds-keeps :
    (Q : Client → Type 0) (p : Parameters)
    → ((r : Round) (c c' : Client) → Q c → Went p r c c' → Q c')
    → (rs : List Round) (c c' : Client) → Q c
    → Arrives (run_rounds p rs c) c'
    → Q c'
unfolding run_rounds
run_rounds-keeps Q p keeps [] c c' q (inl e) = subst Q (ground (arith, e)) q
run_rounds-keeps Q p keeps [] c c' q (inr e) = absurd (ground (arith, e))
run_rounds-keeps Q p keeps (r ∷ rs) c c' q a =
    by_round (run_round p r c) refl (λ d k b. run_rounds-keeps Q p keeps rs d c' k b)
  where
    by_round :
        (o : Ended)
        → run_round p r c ≡ o
        → ((d : Client) → Q d → Arrives (run_rounds p rs d) c' → Q c')
        → Q c'
    by_round (continues d) e again =
        let later : run_rounds p (r ∷ rs) c ≡ run_rounds p rs d = rw (e, run_rounds) in
        again d (keeps r c d q (run_round-Went p r c d (inl e))) (subst (λ o. Arrives o c') later a)
    by_round (leaves d) e again =
        let same : d ≡ c' = ground (arith, a, e) in
        subst Q same (keeps r c d q (run_round-Went p r c d (inr e)))
    by_round (throws x) e again = absurd (ground (arith, a, e))

new_client-Inv : (p : Parameters) → Inv p new_client
unfolding new_client handles_created handles_destroyed
new_client-Inv p = record {
  balance = refl;
  online = λ e. cc;
  offline = λ e. (refl, refl);
  kind = (λ e. refl, λ e. refl);
}

Went-Inv : (p : Parameters) (r : Round) (c c' : Client) → Inv p c → Went p r c c' → Inv p c'
Went-Inv p r c c' i (unchanged e) = subst (Inv p) (sym e) i
Went-Inv p r c c' i (reconnected d f g) =
    (connect-Inv p r d c' (disconnect-IsReleased p r c d i f) g).0

pub run_rounds-Inv :
    (p : Parameters) (rs : List Round) (c : Client)
    → Arrives (run_rounds p rs new_client) c
    → Inv p c
run_rounds-Inv p rs c a =
    run_rounds-keeps (Inv p) p (Went-Inv p) rs new_client c (new_client-Inv p) a

-- Wherever the loop of Run arrives, through any renewals: each handle that was created has been
-- destroyed exactly once, in order, except for the one that is held while there is a connection, and
-- none is held otherwise.
pub handles_balance :
    (p : Parameters) (rs : List Round) (c : Client)
    → Arrives (run_rounds p rs new_client) c
    → (handles_created c.log ≡ handles_destroyed c.log ++ held c)
      × ((c.connected ≡ true → (h : ℕ) × (held c ≡ h ∷ [])) × (c.connected ≡ false → held c ≡ []))
handles_balance p rs c a =
    let i = run_rounds-Inv p rs c a in
    (
      i.balance,
      (
        λ on. let (h, holds, _, _) = i.online on in (h, holds),
        λ off. let (d, m) = i.offline off in rw (d, m),
      ),
    )

destroy_host-log :
    (c : Client)
    → (handles_destroyed (destroy_host c).log
        ≡ handles_destroyed c.log ++ (as_list c.host_device_handle ++ as_list c.host_module_handle))
      × (handles_created (destroy_host c).log ≡ handles_created c.log)
unfolding destroy_host
destroy_host-log c = (
  destroyed-append (c.log ++ destruction c.host_device_handle) (destruction c.host_module_handle)
      ∙ rw
          (
            destroyed-append c.log (destruction c.host_device_handle),
            destroyed-destruction c.host_device_handle,
            destroyed-destruction c.host_module_handle,
          )
          (append_assoc (handles_destroyed c.log) (as_list c.host_device_handle)
            (as_list c.host_module_handle)),
  created-append (c.log ++ destruction c.host_device_handle) (destruction c.host_module_handle)
      ∙ rw
          (
            created-append c.log (destruction c.host_device_handle),
            created-destruction c.host_device_handle,
            created-destruction c.host_module_handle,
          )
          (append-nil (handles_created c.log ++ []) ∙ append-nil (handles_created c.log)),
)

-- If Run leaves its loop while there is a connection and its end throws nothing, then the handle of that
-- connection is destroyed twice: once by AzureRawHost::Destroy, once by DeinitializeIoTHubConnection.
pub last_handle_destroyed_twice :
    (p : Parameters) (rs : List Round) (r : Round) (c c' : Client)
    → run_rounds p rs new_client ≡ leaves c
    → c.connected ≡ true
    → finish r c ≡ ok c'
    → (h : ℕ) × (handles_created c'.log ≡ handles_destroyed c.log ++ h ∷ [])
      × (handles_destroyed c'.log ≡ handles_destroyed c.log ++ h ∷ h ∷ [])
unfolding finish signal_status deinitialize
last_handle_destroyed_twice p rs r c c' a on e =
    let i = run_rounds-Inv p rs c (inr a) in
    let (h, holds, device, module_same) = i.online on in
    elim (Result-cases (enable_notifications false r c)) [
      | inr (x, f) ↦ absurd (ground (arith, e, f))
      | inl (c₁, f) ↦
          let log₁ : c₁ ≡ record c { log = c.log ++ notifications false ∷ [] } =
            enable_notifications-log false r c c₁ f in
          let d = record (told false c) { log = (told false c).log ++ stop_signalled ∷ [] } in
          let same : deinitialize_connection (destroy_host d) ≡ c' = ground (arith, e, f, log₁) in
          let quiet : handles_destroyed d.log ≡ handles_destroyed c.log =
            destroyed-append (told false c).log (stop_signalled ∷ [])
            ∙ unfold handles_destroyed in
              append-nil (handles_destroyed (told false c).log) ∙ destroyed-told false c in
          let quiet_created : handles_created d.log ≡ handles_created c.log =
            created-append (told false c).log (stop_signalled ∷ [])
            ∙ unfold handles_created in
              append-nil (handles_created (told false c).log) ∙ created-told false c in
          let host : as_list c.host_device_handle ++ as_list c.host_module_handle ≡ h ∷ [] =
            rw (device, module_same) holds in
          let kept : held (destroy_host d) ≡ h ∷ [] = unfold destroy_host in holds in
          (
            h,
            ap (λ x. handles_created x.log) (sym same)
                ∙ deinitialize_connection-created (destroy_host d)
                ∙ (destroy_host-log d).1
                ∙ quiet_created
                ∙ i.balance
                ∙ ap (λ l. handles_destroyed c.log ++ l) holds,
            ap (λ x. handles_destroyed x.log) (sym same)
                ∙ deinitialize_connection-destroyed (destroy_host d)
                ∙ rw ((destroy_host-log d).0, quiet, host, kept)
                    (append_assoc (handles_destroyed c.log) (h ∷ []) (h ∷ [])),
          )
    ]
