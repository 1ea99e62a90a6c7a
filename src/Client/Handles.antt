-- ===== src/Client/Handles.antt =====
-- Each handle that the agent creates is given back, the last one twice.
use azure_client_tools.Base.{
  ℕ, ◌+◌, ◌%◌, ◌^◌, ◌≡◌, refl, sym, ap, subst, ◌∙◌, inl, inr, Bool, true, false, [], ◌∷◌, ◌++◌,
  append-nil, append_assoc, Option, none, some, ◌==◌, ok, Result-cases, Option-cases, Bool-cases,
  arith,
}
use azure_client_tools.Client.{
  Parameters, created, notifications, status, Client, Round, enable_notifications, destruction,
  deinitialize_connection, with_handle, initialize_connection, disconnect, connect, signal_status,
  renewal_start,
}
use azure_client_tools.Client.Balance.{
  handles_created, handles_destroyed, created-append, destroyed-append, as_list, held, OneKind, Inv,
}

pub enable_notifications-log :
    (b : Bool) (r : Round) (c c' : Client)
    → enable_notifications b r c ≡ ok c'
    → c' ≡ record c { log = c.log ++ notifications b ∷ [] }
unfolding enable_notifications
enable_notifications-log b r c c' e = ground (arith, e)

-- A client that holds no handle; its host may hold one that is gone.
pub record IsReleased (p : Parameters) (c : Client) : Type 0 where
  balance : handles_created c.log ≡ handles_destroyed c.log
  no_device : c.device_client_handle ≡ none
  no_module : c.module_client_handle ≡ none
  kind : OneKind p c

pub destroyed-destruction : (o : Option ℕ) → handles_destroyed (destruction o) ≡ as_list o
unfolding handles_destroyed
destroyed-destruction none = refl
destroyed-destruction (some h) = refl

pub created-destruction : (o : Option ℕ) → handles_created (destruction o) ≡ []
unfolding handles_created
created-destruction none = refl
created-destruction (some h) = refl

pub deinitialize_connection-destroyed :
    (c : Client)
    → handles_destroyed (deinitialize_connection c).log ≡ handles_destroyed c.log ++ held c
unfolding deinitialize_connection
deinitialize_connection-destroyed c =
    destroyed-append (c.log ++ destruction c.device_client_handle)
      (destruction c.module_client_handle)
    ∙ rw
        (
          destroyed-append c.log (destruction c.device_client_handle),
          destroyed-destruction c.device_client_handle,
          destroyed-destruction c.module_client_handle,
        )
        (append_assoc (handles_destroyed c.log) (as_list c.device_client_handle)
          (as_list c.module_client_handle))

pub deinitialize_connection-created :
    (c : Client) → handles_created (deinitialize_connection c).log ≡ handles_created c.log
unfolding deinitialize_connection
deinitialize_connection-created c =
    created-append (c.log ++ destruction c.device_client_handle)
      (destruction c.module_client_handle)
    ∙ rw (
      created-append c.log (destruction c.device_client_handle),
      created-destruction c.device_client_handle,
      created-destruction c.module_client_handle,
      append-nil,
      append-nil,
    )

-- The log with the events of a change of the connection.
abbrev pub told : Bool → Client → Client
told b c = record c { log = (c.log ++ notifications b ∷ []) ++ status b ∷ [] }

pub created-told : (b : Bool) (c : Client) → handles_created (told b c).log ≡ handles_created c.log
created-told b c =
    created-append (c.log ++ notifications b ∷ []) (status b ∷ [])
    ∙ unfold handles_created in
      append-nil (handles_created (c.log ++ notifications b ∷ []))
      ∙ created-append c.log (notifications b ∷ [])
      ∙ unfold handles_created in append-nil (handles_created c.log)

pub destroyed-told :
    (b : Bool) (c : Client) → handles_destroyed (told b c).log ≡ handles_destroyed c.log
destroyed-told b c =
    destroyed-append (c.log ++ notifications b ∷ []) (status b ∷ [])
    ∙ unfold handles_destroyed in
      append-nil (handles_destroyed (c.log ++ notifications b ∷ []))
      ∙ destroyed-append c.log (notifications b ∷ [])
      ∙ unfold handles_destroyed in append-nil (handles_destroyed c.log)

pub disconnect-IsReleased :
    (p : Parameters) (r : Round) (c c' : Client)
    → Inv p c
    → disconnect r c ≡ ok c'
    → IsReleased p c'
unfolding disconnect signal_status
disconnect-IsReleased p r c c' i e = elim (Bool-cases c.connected) [
  | inl on ↦ elim (Result-cases (enable_notifications false r c)) [
    | inl (c₁, f) ↦
        let log₁ : c₁ ≡ record c { log = c.log ++ notifications false ∷ [] } =
          enable_notifications-log false r c c₁ f in
        let same : record (deinitialize_connection (told false c)) { connected = false } ≡ c' =
          ground (arith, e, f, log₁) in
        subst (IsReleased p) same (record {
          balance =
              deinitialize_connection-created (told false c)
              ∙ created-told false c
              ∙ i.balance
              ∙ ap (λ l. l ++ held c) (sym (destroyed-told false c))
              ∙ sym (deinitialize_connection-destroyed (told false c));
          no_device = unfold deinitialize_connection in refl;
          no_module = unfold deinitialize_connection in refl;
          kind = unfold deinitialize_connection in i.kind;
        })
    | inr (x, f) ↦ absurd (ground (arith, e, f))
  ]
  | inr off ↦
      let same : c ≡ c' = ground (arith, e) in
      let (d, m) = i.offline off in
      subst (IsReleased p) same (record {
        balance = i.balance ∙ rw (d, m) (append-nil (handles_destroyed c.log));
        no_device = d;
        no_module = m;
        kind = i.kind;
      })
]

with_handle-Inv :
    (p : Parameters) (h : ℕ) (c : Client)
    → IsReleased p c
    → let c' = with_handle p h c in
      (handles_created c'.log ≡ handles_destroyed c'.log ++ h ∷ [])
      × (held c' ≡ h ∷ [])
      × (c'.host_device_handle ≡ c'.device_client_handle)
      × (c'.host_module_handle ≡ c'.module_client_handle)
      × OneKind p c'
unfolding with_handle handles_created handles_destroyed
with_handle-Inv p h c i =
    let grown : handles_created (c.log ++ created h ∷ [])
        ≡ handles_destroyed (c.log ++ created h ∷ []) ++ h ∷ [] =
      created-append c.log (created h ∷ [])
      ∙ ap (λ l. l ++ h ∷ []) i.balance
      ∙ ap (λ l. l ++ h ∷ [])
          (sym (destroyed-append c.log (created h ∷ []) ∙ append-nil (handles_destroyed c.log))) in
    elim (Bool-cases (p.device_slot == p.dm_slot)) [
      | inl d ↦
          rw (d, with_handle)
            (grown, rw i.no_module, refl, i.kind.0 d ∙ sym i.no_module, (λ e. i.kind.0 d, λ e. cc))
      | inr m ↦
          rw (m, with_handle)
            (grown, rw i.no_device, i.kind.1 m ∙ sym i.no_device, refl, (λ e. cc, λ e. i.kind.1 m))
    ]

-- A client that got a new handle and told so.
pub connect-Inv :
    (p : Parameters) (r : Round) (c c' : Client)
    → IsReleased p c
    → connect p r c ≡ ok c'
    → Inv p c' × (c'.connected ≡ true)
unfolding connect initialize_connection
connect-Inv p r c c' i e = elim (Result-cases r.timestamp) [
  | inr (x, f) ↦ absurd (ground (arith, e, f))
  | inl (stamp, f) ↦ elim (Option-cases r.handle) [
    | inl none_made ↦ absurd (ground (arith, e, f, none_made))
    | inr (h, made) ↦
        let c₁ = with_handle p h (record c { sas_token_timestamp = stamp }) in
        elim (Result-cases (enable_notifications true r c₁)) [
          | inr (x, g) ↦ absurd (ground (arith, e, f, made, g))
          | inl (c₂, g) ↦
              let log₂ : c₂ ≡ record c₁ { log = c₁.log ++ notifications true ∷ [] } =
                enable_notifications-log true r c₁ c₂ g in
              let same : record (told true c₁) {
                connected = true;
                first_time = false;
                renewal_absolute_start = (c₂.sas_token_timestamp + renewal_start p) % 2 ^ 64;
              }
                  ≡ c' =
                ground (arith, e, f, made, g, log₂) in
              let (grown, holds, device, module_same, one_kind) =
                with_handle-Inv p h (record c { sas_token_timestamp = stamp })
                  (record {
                    balance = i.balance;
                    no_device = i.no_device;
                    no_module = i.no_module;
                    kind = i.kind;
                  }) in
              subst (λ x. Inv p x × (x.connected ≡ true)) same
                (
                  record {
                    balance =
                        created-told true c₁
                        ∙ grown
                        ∙ rw holds (ap (λ l. l ++ h ∷ []) (sym (destroyed-told true c₁)));
                    online = λ on. (h, holds, device, module_same);
                    offline = λ off. cc;
                    kind = one_kind;
                  },
                  refl,
                )
        ]
  ]
]
