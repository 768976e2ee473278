-- ===== src/Types/TokenIds.antt =====
-- helpers/types.ts: the symbols of the tokens and of the NFTs.
use lender.Common.{String, List, [], ◌∷◌}

-- `Object.keys(TokenContractId)`
abbrev pub token_contract_ids : List String
token_contract_ids = "WETH" ∷ "DAI" ∷ "USDC" ∷ "USDT" ∷ []

-- `Object.keys(NftContractId)`
abbrev pub nft_contract_ids : List String
nft_contract_ids =
    "WPUNKS" ∷ "BAYC" ∷ "DOODLE" ∷ "SDOODLE" ∷ "MAYC" ∷ "CLONEX" ∷ "AZUKI" ∷ "WKODA" ∷ []
