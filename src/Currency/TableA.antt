-- ===== src/Currency/TableA.antt =====
-- The first half of `ALL` in src/domain/currency.rs, in the source's order.
use risq.Base.{List, [], ◌∷◌}
use risq.Currency.Types.{Currency, fiat, crypto, currency}

-- lines 60 to 184
unfoldable pub currencies_one : List Currency
currencies_one =
    currency "ACM" "Actinium" crypto
    ∷ currency "ADE" "Adeptio" crypto
    ∷ currency "AED" "United Arab Emirates Dirham" fiat
    ∷ currency "AEON" "Aeon" crypto
    ∷ currency "AEUR" "Augmint Euro" crypto
    ∷ currency "AFN" "Afghan Afghani" fiat
    ∷ currency "ALL" "Albanian Lek" fiat
    ∷ currency "AMD" "Armenian Dram" fiat
    ∷ currency "AMIT" "Amitycoin" crypto
    ∷ currency "ANG" "Netherlands Antillean Guilder" fiat
    ∷ currency "ANI" "Animecoin" crypto
    ∷ currency "AOA" "Angolan Kwanza" fiat
    ∷ currency "ARQ" "Arqma" crypto
    ∷ currency "ARS" "Argentine Peso" fiat
    ∷ currency "ASK" "Askcoin" crypto
    ∷ currency "AUD" "Australian Dollar" fiat
    ∷ currency "AUS" "Australiacash" crypto
    ∷ currency "AWG" "Aruban Florin" fiat
    ∷ currency "AZN" "Azerbaijani Manat" fiat
    ∷ currency "BAM" "Bosnia-Herzegovina Convertible Mark" fiat
    ∷ currency "BBD" "Barbadian Dollar" fiat
    ∷ currency "BDT" "Bangladeshi Taka" fiat
    ∷ currency "BEAM" "Beam" crypto
    ∷ currency "BGN" "Bulgarian Lev" fiat
    ∷ currency "BHD" "Bahraini Dinar" fiat
    ∷ []

-- lines 185 to 309
unfoldable pub currencies_two : List Currency
currencies_two =
    currency "BIF" "Burundian Franc" fiat
    ∷ currency "BLK-BURNT" "Burnt BlackCoin" crypto
    ∷ currency "BLUR" "Blur" crypto
    ∷ currency "BMD" "Bermudan Dollar" fiat
    ∷ currency "BND" "Brunei Dollar" fiat
    ∷ currency "BOB" "Bolivian Boliviano" fiat
    ∷ currency "BRL" "Brazilian Real" fiat
    ∷ currency "BSD" "Bahamian Dollar" fiat
    ∷ currency "BSQ" "BSQ" crypto
    ∷ currency "BTC" "Bitcoin" crypto
    ∷ currency "BTM" "Bitmark" crypto
    ∷ currency "BTN" "Bhutanese Ngultrum" fiat
    ∷ currency "BWP" "Botswanan Pula" fiat
    ∷ currency "BYN" "Belarusian Ruble" fiat
    ∷ currency "BZC" "Bitzec" crypto
    ∷ currency "BZD" "Belize Dollar" fiat
    ∷ currency "CAD" "Canadian Dollar" fiat
    ∷ currency "CASH2" "Cash2" crypto
    ∷ currency "CDF" "Congolese Franc" fiat
    ∷ currency "CHA" "Chaucha" crypto
    ∷ currency "CHF" "Swiss Franc" fiat
    ∷ currency "CLOAK" "CloakCoin" crypto
    ∷ currency "CLP" "Chilean Peso" fiat
    ∷ currency "CNY" "Chinese Yuan" fiat
    ∷ currency "COP" "Colombian Peso" fiat
    ∷ []

-- lines 310 to 434
unfoldable pub currencies_three : List Currency
currencies_three =
    currency "CRC" "Costa Rican Colón" fiat
    ∷ currency "CRCL" "CRowdCLassic" crypto
    ∷ currency "CRDS" "Credits" crypto
    ∷ currency "CROAT" "Croat" crypto
    ∷ currency "CTSC" "CTSCoin" crypto
    ∷ currency "CUP" "Cuban Peso" fiat
    ∷ currency "CVE" "Cape Verdean Escudo" fiat
    ∷ currency "CZK" "Czech Republic Koruna" fiat
    ∷ currency "DONU" "Donu" crypto
    ∷ currency "DAI" "Dai Stablecoin" crypto
    ∷ currency "DARX" "BitDaric" crypto
    ∷ currency "DASH" "Dash" crypto
    ∷ currency "D4RK" "DarkPay" crypto
    ∷ currency "DCR" "Decred" crypto
    ∷ currency "DJF" "Djiboutian Franc" fiat
    ∷ currency "DKK" "Danish Krone" fiat
    ∷ currency "DOGE" "Dogecoin" crypto
    ∷ currency "DOI" "Doichain" crypto
    ∷ currency "DOP" "Dominican Peso" fiat
    ∷ currency "DRGL" "Dragonglass" crypto
    ∷ currency "DST" "DSTRA" crypto
    ∷ currency "DXO" "Dextro" crypto
    ∷ currency "DZD" "Algerian Dinar" fiat
    ∷ currency "EMC" "Emercoin" crypto
    ∷ currency "ERG" "Ergo" crypto
    ∷ []

-- lines 435 to 559
unfoldable pub currencies_four : List Currency
currencies_four =
    currency "EGP" "Egyptian Pound" fiat
    ∷ currency "ERN" "Eritrean Nakfa" fiat
    ∷ currency "ETB" "Ethiopian Birr" fiat
    ∷ currency "ETC" "Ether Classic" crypto
    ∷ currency "ETH" "Ether" crypto
    ∷ currency "ETHS" "EtherStone" crypto
    ∷ currency "EUR" "Euro" fiat
    ∷ currency "FAIR" "Faircoin" crypto
    ∷ currency "FJC" "Fujicoin" crypto
    ∷ currency "FJD" "Fijian Dollar" fiat
    ∷ currency "FKP" "Falkland Islands Pound" fiat
    ∷ currency "FRTY" "FourtyTwo" crypto
    ∷ currency "GALI" "Galilel" crypto
    ∷ currency "GBP" "British Pound" fiat
    ∷ currency "GBYTE" "Byte" crypto
    ∷ currency "GENX" "Genesis" crypto
    ∷ currency "GEL" "Georgian Lari" fiat
    ∷ currency "GHS" "Ghanaian Cedi" fiat
    ∷ currency "GIP" "Gibraltar Pound" fiat
    ∷ currency "GMCN" "GambleCoin" crypto
    ∷ currency "GMD" "Gambian Dalasi" fiat
    ∷ currency "GNF" "Guinean Franc" fiat
    ∷ currency "GRIN" "Grin" crypto
    ∷ currency "GTQ" "Guatemalan Quetzal" fiat
    ∷ currency "GYD" "Guyanaese Dollar" fiat
    ∷ []

-- lines 560 to 684
unfoldable pub currencies_five : List Currency
currencies_five =
    currency "HATCH" "Hatch" crypto
    ∷ currency "HKD" "Hong Kong Dollar" fiat
    ∷ currency "HLM" "Helium" crypto
    ∷ currency "HNL" "Honduran Lempira" fiat
    ∷ currency "HRK" "Croatian Kuna" fiat
    ∷ currency "HTG" "Haitian Gourde" fiat
    ∷ currency "HUF" "Hungarian Forint" fiat
    ∷ currency "IDA" "IdaPay" crypto
    ∷ currency "IDR" "Indonesian Rupiah" fiat
    ∷ currency "ILS" "Israeli New Sheqel" fiat
    ∷ currency "INR" "Indian Rupee" fiat
    ∷ currency "IQD" "Iraqi Dinar" fiat
    ∷ currency "IRD" "Iridium" crypto
    ∷ currency "IRR" "Iranian Rial" fiat
    ∷ currency "ISK" "Icelandic Króna" fiat
    ∷ currency "JMD" "Jamaican Dollar" fiat
    ∷ currency "JOD" "Jordanian Dinar" fiat
    ∷ currency "JPY" "Japanese Yen" fiat
    ∷ currency "KEK" "Kekcoin" crypto
    ∷ currency "KES" "Kenyan Shilling" fiat
    ∷ currency "KGS" "Kyrgystani Som" fiat
    ∷ currency "KHR" "Cambodian Riel" fiat
    ∷ currency "KMF" "Comorian Franc" fiat
    ∷ currency "KPW" "North Korean Won" fiat
    ∷ currency "KORE" "Kore" crypto
    ∷ []

-- lines 685 to 809
unfoldable pub currencies_six : List Currency
currencies_six =
    currency "KRW" "South Korean Won" fiat
    ∷ currency "KWD" "Kuwaiti Dinar" fiat
    ∷ currency "KYD" "Cayman Islands Dollar" fiat
    ∷ currency "KYDC" "Know Your Developer" crypto
    ∷ currency "KZT" "Kazakhstani Tenge" fiat
    ∷ currency "LBC" "LBRY Credits" crypto
    ∷ currency "LAK" "Laotian Kip" fiat
    ∷ currency "LBP" "Lebanese Pound" fiat
    ∷ currency "LCP" "LitecoinPlus" crypto
    ∷ currency "LKR" "Sri Lankan Rupee" fiat
    ∷ currency "LRD" "Liberian Dollar" fiat
    ∷ currency "LSL" "Lesotho Loti" fiat
    ∷ currency "LTC" "Litecoin" crypto
    ∷ currency "LTZ" "LitecoinZ" crypto
    ∷ currency "LYD" "Libyan Dinar" fiat
    ∷ currency "LYTX" "Lytix" crypto
    ∷ currency "MAD" "Moroccan Dirham" fiat
    ∷ currency "MSR" "Masari" crypto
    ∷ currency "MAI" "Starwels" crypto
    ∷ currency "MASK" "Mask" crypto
    ∷ currency "MBGL" "MobitGlobal" crypto
    ∷ currency "MDL" "Moldovan Leu" fiat
    ∷ currency "MGA" "Malagasy Ariary" fiat
    ∷ currency "MILE" "Mile" crypto
    ∷ currency "MKD" "Macedonian Denar" fiat
    ∷ []
