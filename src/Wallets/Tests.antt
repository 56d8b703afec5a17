-- ===== src/Wallets/Tests.antt =====
-- store/wallets.go with one user who adds a wallet, confirms it and adds another.
use gig.Base.{[], ◌∷◌, arith}
use gig.Base.Text.{Bytes}
use gig.Wallets.{Wallets, create_pending_wallet, confirm_wallet}
use gig.Wallets.Unique.{IsUnique, wallets-IsUnique}

abbrev base : Bytes
base = b'b' ∷ b'a' ∷ b's' ∷ b'e' ∷ []

abbrev usdc : Bytes
usdc = b'u' ∷ b's' ∷ b'd' ∷ b'c' ∷ []

abbrev no_wallets : Wallets
no_wallets = record { seller_wallets = []; next_id = 1; now = 1000 }

no_wallets-IsUnique : IsUnique no_wallets
no_wallets-IsUnique = record {
  one_pending = λ user network asset. omega arith;
  one_confirmed = λ user network asset. omega arith;
  one_id = λ i. omega arith;
  used = tt;
}

abbrev added : Wallets
added = (create_pending_wallet 7 base usdc (1 ∷ []) (2 ∷ []) no_wallets).1

added-IsUnique : IsUnique added
added-IsUnique =
    (wallets-IsUnique 7 1 86400 base usdc (1 ∷ []) (2 ∷ []) no_wallets no_wallets-IsUnique).0

wallets-IsUnique_example :
    IsUnique (create_pending_wallet 7 base usdc (3 ∷ []) (4 ∷ []) added).1
    × IsUnique (confirm_wallet 1 86400 added).1
wallets-IsUnique_example =
    wallets-IsUnique 7 1 86400 base usdc (3 ∷ []) (4 ∷ []) added added-IsUnique
