-- ===== src/Partners/Tests.antt =====
-- Two partners applied to an EVM and a Solana mirror whose fee cannot be set.
use text.Mathlib.Text.{◌==◌ as str_eq}
use text.Mathlib.TextEquality.{eq_iff}
use boundless_stock.Prelude.{
  ℕ, ◌≡◌, ◌↔◌, ◌⊎◌, inl, inr, refl, arith, Bool, Bool-cases, true, false, ◌==◌, ◌&&◌, Option, none,
  some, [], ◌∷◌, if◌then◌else◌,
}
use boundless_stock.Manifest.{Manifest, mirror}
use boundless_stock.Partners.{
  Partner, PartnerKeys, PartnerSettings, PartnersConfig, Target, evm_mirror, svm_mirror, Call,
  set_partner, set_platform_fee, set_partner_required, Run, apply_partners, apply_all, apply_to,
  set_partners, evm_targets,
}
use boundless_stock.Partners.Closed.{Mirrors, IsOpenOrReady, apply_partners-IsOpenOrReady}

pub record World : Type 0 where
  pub registered : Target → ℕ → Option PartnerSettings
  pub required : Target → Bool

same_target : Target → Target → Bool
same_target (evm_mirror k r) (evm_mirror k' r') = str_eq k k' && str_eq r r'
same_target (svm_mirror k) (svm_mirror k') = str_eq k k'
same_target _ _ = false

same_target_iff : (t u : Target) → (same_target t u ≡ true) ↔ (t ≡ u)
unfolding same_target
same_target_iff (evm_mirror k r) (evm_mirror k' r') = ground (arith, eq_iff k k', eq_iff r r')
same_target_iff (svm_mirror k) (svm_mirror k') = ground (arith, eq_iff k k')
same_target_iff (evm_mirror k r) (svm_mirror k') = ground arith
same_target_iff (svm_mirror k) (evm_mirror k' r') = ground arith

-- Setting a fee of more than 100 basis points throws.
abbrev call : Target → Call → World → Run World
call t (set_partner id s) w = (
  record w { registered = λ u i. if same_target t u && id == i then some s else w.registered u i },
  false,
)
call t (set_platform_fee bps to) w = (w, bps == 101)
call t (set_partner_required b) w =
    (record w { required = λ u. if same_target t u then b else w.required u }, false)

abbrev mirrors : Mirrors call
mirrors = record {
  required_at = λ t w. w.required t;
  partner_at = λ t id w. w.registered t id;
  set_there = there;
  still_there = still;
  partner_keeps = λ t u id s w. refl;
  fee_keeps = λ t u bps to w. refl;
  required_there = required;
}
  where
    there :
        (t : Target) (id : ℕ) (s : PartnerSettings) (w : World)
        → (call t (set_partner id s) w).1 ≡ false
        → (call t (set_partner id s) w).0.registered t id ≡ some s
    there t id s w p = ground (arith, same_target_iff t t)

    still :
        (t u : Target) (c : Call) (id : ℕ) (s : PartnerSettings) (w : World)
        → w.registered u id ≡ some s
        → (s' : PartnerSettings) × ((call t c w).0.registered u id ≡ some s')
    still t u (set_partner i s') id s w p = elim (Bool-cases (same_target t u && i == id)) [
      | inl e ↦ (s', rw e refl)
      | inr e ↦ (s, rw e p)
    ]
    still t u (set_platform_fee bps to) id s w p = (s, p)
    still t u (set_partner_required b) id s w p = (s, p)

    required :
        (t u : Target) (b : Bool) (w : World)
        → ((call t (set_partner_required b) w).0.required u ≡ w.required u) ⊎ (t ≡ u)
    required t u b w = elim (Bool-cases (same_target t u)) [
      | inl e ↦ inr ((same_target_iff t u).0 e)
      | inr e ↦ inl (rw e refl)
    ]

abbrev config : PartnersConfig
config = record {
  partners = some (
      record {
        id = 7;
        max_fee_bps = 50;
        active = none;
        evm = some (record { signer = "0x1"; fee_recipient = "0x2" });
        svm = none;
      }
      ∷ record {
        id = 8;
        max_fee_bps = 300;
        active = some true;
        evm = none;
        svm = some (record { signer = "A"; fee_recipient = "B" });
      }
      ∷ []);
  platform_fee = some (record { bps = 101; evm = some "0x3"; svm = none });
  required = some true;
}

abbrev manifest : Manifest
manifest = record {
  home_chain_key = "base";
  chains =
      (
        "arc",
        record {
          key = "arc";
          eid = 2;
          role = mirror;
          lz_endpoint = "";
          local_message_lib = none;
          contracts = ("SwapRequest", "0xa") ∷ [];
        },
      )
      ∷ [];
  peers = [];
  steps = [];
}

abbrev fresh : World
fresh = record { registered = λ t id. none; required = λ t. false }

-- The fee throws on the first mirror, which is left open.
left_open :
    (apply_partners call (some config) (λ c. true) manifest ("solana" ∷ []) fresh).0.required
      (evm_mirror "arc" "0xa")
    ≡ false
unfolding apply_partners apply_all apply_to set_partners evm_targets same_target
left_open = refl

apply_partners-IsOpenOrReady_example :
    IsOpenOrReady call mirrors
      (boundless_stock.Partners.or_list config.partners)
      fresh
      (apply_partners call (some config) (λ c. true) manifest ("solana" ∷ []) fresh).0
apply_partners-IsOpenOrReady_example =
    apply_partners-IsOpenOrReady call mirrors config (λ c. true) manifest ("solana" ∷ []) fresh
