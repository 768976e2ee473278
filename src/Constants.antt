-- ===== src/Constants.antt =====
-- helpers/constants.ts. A constant that the source writes as a decimal text is the number it denotes.
use lender.Common.{ℕ, String, ◌*◌, ◌/◌, ◌^◌, [], ◌∷◌}
use lender.Common.Dict.{Dict}

abbrev pub percentage_factor : ℕ
percentage_factor = 10000

abbrev pub half_percentage : ℕ
half_percentage = 5000

abbrev pub wad : ℕ
wad = 10 ^ 18

-- `new BigNumber(WAD).multipliedBy(0.5)`
abbrev pub half_wad : ℕ
half_wad = wad * 5 / 10

abbrev pub ray : ℕ
ray = 10 ^ 27

abbrev pub half_ray : ℕ
half_ray = ray * 5 / 10

abbrev pub wad_ray_ratio : ℕ
wad_ray_ratio = 10 ^ 9

abbrev pub one_ether : ℕ
one_ether = 10 ^ 18

abbrev pub one_ray : ℕ
one_ray = 10 ^ 27

abbrev pub max_uint_amount : ℕ
max_uint_amount = 115792089237316195423570985008687907853269984665640564039457584007913129639935

abbrev pub one_year : ℕ
one_year = 31536000

abbrev pub zero_address : String
zero_address = "0x0000000000000000000000000000000000000000"

abbrev pub one_address : String
one_address = "0x0000000000000000000000000000000000000001"

abbrev pub mock_usd_price : ℕ
mock_usd_price = 425107839690

abbrev pub usd_address : String
usd_address = "0x9ceb4d4c184d1786614a593a03621b7f37f8685f"

-- `MOCK_RESERVE_AGGREGATORS_PRICES`: the factor of one ether, a decimal fraction, as a quotient.
abbrev pub mock_reserve_aggregators_prices : Dict ℕ
mock_reserve_aggregators_prices =
    ("WETH", one_ether)
    ∷ ("DAI", one_ether * 233211 / 10 ^ 9)
    ∷ ("USDC", one_ether * 2349162 / 10 ^ 10)
    ∷ ("USDT", one_ether * 2359253 / 10 ^ 10)
    ∷ []

-- `MOCK_NFT_AGGREGATORS_PRICES`
abbrev pub mock_nft_aggregators_prices : Dict ℕ
mock_nft_aggregators_prices =
    ("WPUNKS", one_ether * 6699 / 100)
    ∷ ("BAYC", one_ether * 5277 / 100)
    ∷ ("DOODLE", one_ether * 269 / 100)
    ∷ ("SDOODLE", one_ether * 269 / 100)
    ∷ ("MAYC", one_ether * 623 / 100)
    ∷ ("CLONEX", one_ether * 1195 / 100)
    ∷ ("AZUKI", one_ether * 1050 / 100)
    ∷ ("WKODA", one_ether * 1700 / 100)
    ∷ []

abbrev pub address_id_weth_gateway : String
address_id_weth_gateway = "0xADDE000000000000000000000000000000000000000000000000000000000001"

abbrev pub address_id_punk_gateway : String
address_id_punk_gateway = "0xADDE000000000000000000000000000000000000000000000000000000000002"
