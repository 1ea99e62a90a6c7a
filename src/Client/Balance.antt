-- ===== src/Client/Balance.antt =====
-- The handles of a client that were created, destroyed and are held.
use azure_client_tools.Base.{
  ℕ, ◌≡◌, refl, ap, true, false, List, [], ◌∷◌, ◌++◌, Option, none, some, ◌==◌,
}
use azure_client_tools.Client.{
  Parameters, Event, created, destroyed, notifications, status, stop_signalled, Client,
}

unfoldable pub handles_created : List Event → List ℕ
handles_created [] = []
handles_created (created h ∷ l) = h ∷ handles_created l
handles_created (_ ∷ l) = handles_created l

unfoldable pub handles_destroyed : List Event → List ℕ
handles_destroyed [] = []
handles_destroyed (destroyed h ∷ l) = h ∷ handles_destroyed l
handles_destroyed (_ ∷ l) = handles_destroyed l

pub created-append :
    (l l' : List Event) → handles_created (l ++ l') ≡ handles_created l ++ handles_created l'
unfolding handles_created
created-append [] l' = refl
created-append (created h ∷ l) l' = ap (◌∷◌ h) (created-append l l')
created-append (destroyed h ∷ l) l' = created-append l l'
created-append (notifications b ∷ l) l' = created-append l l'
created-append (status b ∷ l) l' = created-append l l'
created-append (stop_signalled ∷ l) l' = created-append l l'

pub destroyed-append :
    (l l' : List Event) → handles_destroyed (l ++ l') ≡ handles_destroyed l ++ handles_destroyed l'
unfolding handles_destroyed
destroyed-append [] l' = refl
destroyed-append (created h ∷ l) l' = destroyed-append l l'
destroyed-append (destroyed h ∷ l) l' = ap (◌∷◌ h) (destroyed-append l l')
destroyed-append (notifications b ∷ l) l' = destroyed-append l l'
destroyed-append (status b ∷ l) l' = destroyed-append l l'
destroyed-append (stop_signalled ∷ l) l' = destroyed-append l l'

abbrev pub as_list : Option ℕ → List ℕ
as_list none = []
as_list (some h) = h ∷ []

-- The handles that AzureDMClient holds.
abbrev pub held : Client → List ℕ
held c = as_list c.device_client_handle ++ as_list c.module_client_handle

-- The host has handles of one kind only: for the device or for a module.
abbrev pub OneKind : Parameters → Client → Type 0
OneKind p c =
    ((p.device_slot == p.dm_slot) ≡ true → c.host_module_handle ≡ none)
    × ((p.device_slot == p.dm_slot) ≡ false → c.host_device_handle ≡ none)

-- What was created has been destroyed once, but for what is held; the host holds the same; and a
-- connection holds one handle.
pub record Inv (p : Parameters) (c : Client) : Type 0 where
  pub balance : handles_created c.log ≡ handles_destroyed c.log ++ held c
  pub online :
      c.connected ≡ true
      → (h : ℕ) × (held c ≡ h ∷ [])
        × (c.host_device_handle ≡ c.device_client_handle)
        × (c.host_module_handle ≡ c.module_client_handle)
  pub offline :
      c.connected ≡ false → (c.device_client_handle ≡ none) × (c.module_client_handle ≡ none)
  pub kind : OneKind p c
