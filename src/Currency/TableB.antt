-- ===== src/Currency/TableB.antt =====
-- The second half of `ALL` in src/domain/currency.rs, in the source's order.
use risq.Base.{List, [], ◌∷◌}
use risq.Currency.Types.{Currency, fiat, crypto, currency}

-- lines 810 to 934
unfoldable pub currencies_seven : List Currency
currencies_seven =
    currency "MMK" "Myanmar Kyat" fiat
    ∷ currency "MNT" "Mongolian Tugrik" fiat
    ∷ currency "MOP" "Macanese Pataca" fiat
    ∷ currency "MOX" "MoX" crypto
    ∷ currency "MQX" "MirQuiX" crypto
    ∷ currency "MRO" "Mauritanian Ouguiya" fiat
    ∷ currency "MUE" "MonetaryUnit" crypto
    ∷ currency "MUR" "Mauritian Rupee" fiat
    ∷ currency "MVR" "Maldivian Rufiyaa" fiat
    ∷ currency "MWK" "Malawian Kwacha" fiat
    ∷ currency "MXN" "Mexican Peso" fiat
    ∷ currency "MYR" "Malaysian Ringgit" fiat
    ∷ currency "MZN" "Mozambican Metical" fiat
    ∷ currency "NTBC" "NoteBlockchain" crypto
    ∷ currency "NAD" "Namibian Dollar" fiat
    ∷ currency "NAV" "Navcoin" crypto
    ∷ currency "NEOS" "Neos" crypto
    ∷ currency "NGN" "Nigerian Naira" fiat
    ∷ currency "NIO" "Nicaraguan Córdoba" fiat
    ∷ currency "NMC" "Namecoin" crypto
    ∷ currency "NOK" "Norwegian Krone" fiat
    ∷ currency "NOR" "Noir" crypto
    ∷ currency "NPR" "Nepalese Rupee" fiat
    ∷ currency "NZD" "New Zealand Dollar" fiat
    ∷ currency "OMR" "Omani Rial" fiat
    ∷ []

-- lines 935 to 1059
unfoldable pub currencies_eight : List Currency
currencies_eight =
    currency "ONION" "DeepOnion" crypto
    ∷ currency "PAB" "Panamanian Balboa" fiat
    ∷ currency "PARS" "ParsiCoin" crypto
    ∷ currency "PART" "Particl" crypto
    ∷ currency "PEN" "Peruvian Nuevo Sol" fiat
    ∷ currency "PENG" "PENG Coin" crypto
    ∷ currency "PGK" "Papua New Guinean Kina" fiat
    ∷ currency "PHP" "Philippine Peso" fiat
    ∷ currency "PINK" "Pinkcoin" crypto
    ∷ currency "PIVX" "PIVX" crypto
    ∷ currency "PKR" "Pakistani Rupee" fiat
    ∷ currency "PLE" "Plenteum" crypto
    ∷ currency "PLN" "Polish Zloty" fiat
    ∷ currency "PRSN" "Persona" crypto
    ∷ currency "PYG" "Paraguayan Guarani" fiat
    ∷ currency "PZDC" "PZDC" crypto
    ∷ currency "QAR" "Qatari Rial" fiat
    ∷ currency "QBS" "Qbase" crypto
    ∷ currency "QMCoin" "QMCoin" crypto
    ∷ currency "QWC" "Qwertycoin" crypto
    ∷ currency "RADS" "Radium" crypto
    ∷ currency "RDD" "ReddCoin" crypto
    ∷ currency "RMX" "Remix" crypto
    ∷ currency "RON" "Romanian Leu" fiat
    ∷ currency "RSD" "Serbian Dinar" fiat
    ∷ []

-- lines 1060 to 1184
unfoldable pub currencies_nine : List Currency
currencies_nine =
    currency "RUB" "Russian Ruble" fiat
    ∷ currency "RWF" "Rwandan Franc" fiat
    ∷ currency "RYO" "Ryo" crypto
    ∷ currency "SAR" "Saudi Riyal" fiat
    ∷ currency "SBD" "Solomon Islands Dollar" fiat
    ∷ currency "SCP" "SiaPrimeCoin" crypto
    ∷ currency "SCR" "Seychellois Rupee" fiat
    ∷ currency "SDG" "Sudanese Pound" fiat
    ∷ currency "SEK" "Swedish Krona" fiat
    ∷ currency "SF" "Siafund" crypto
    ∷ currency "SGD" "Singapore Dollar" fiat
    ∷ currency "SHP" "St. Helena Pound" fiat
    ∷ currency "SIL" "SixEleven" crypto
    ∷ currency "SLL" "Sierra Leonean Leone" fiat
    ∷ currency "SOS" "Somali Shilling" fiat
    ∷ currency "SPACE" "SpaceCash" crypto
    ∷ currency "SRD" "Surinamese Dollar" fiat
    ∷ currency "SSP" "South Sudanese Pound" fiat
    ∷ currency "STN" "São Tomé and Príncipe Dobra" fiat
    ∷ currency "SUB1X" "SUB1X" crypto
    ∷ currency "SVC" "Salvadoran Colón" fiat
    ∷ currency "SYP" "Syrian Pound" fiat
    ∷ currency "SZL" "Swazi Lilangeni" fiat
    ∷ currency "THB" "Thai Baht" fiat
    ∷ currency "TJS" "Tajikistani Somoni" fiat
    ∷ []

-- lines 1185 to 1309
unfoldable pub currencies_ten : List Currency
currencies_ten =
    currency "TMT" "Turkmenistani Manat" fiat
    ∷ currency "TND" "Tunisian Dinar" fiat
    ∷ currency "TOP" "Tongan Paʻanga" fiat
    ∷ currency "TEO" "Trust Ether reOrigin" crypto
    ∷ currency "TRTL" "TurtleCoin" crypto
    ∷ currency "TRY" "Turkish Lira" fiat
    ∷ currency "TTD" "Trinidad & Tobago Dollar" fiat
    ∷ currency "TUSD" "TrueUSD" crypto
    ∷ currency "TWD" "New Taiwan Dollar" fiat
    ∷ currency "TZS" "Tanzanian Shilling" fiat
    ∷ currency "UAH" "Ukrainian Hryvnia" fiat
    ∷ currency "UCC" "UnitedCommunityCoin" crypto
    ∷ currency "UGX" "Ugandan Shilling" fiat
    ∷ currency "UNO" "Unobtanium" crypto
    ∷ currency "USD" "US Dollar" fiat
    ∷ currency "USDC" "USD Coin" crypto
    ∷ currency "USDH" "Starwels" crypto
    ∷ currency "UYU" "Uruguayan Peso" fiat
    ∷ currency "UZS" "Uzbekistani Som" fiat
    ∷ currency "UPX" "uPlexa" crypto
    ∷ currency "VARIUS" "VARIUS Coin" crypto
    ∷ currency "VEF" "Venezuelan Bolívar" fiat
    ∷ currency "VEIL" "Veil" crypto
    ∷ currency "VTC" "Vertcoin" crypto
    ∷ currency "VND" "Vietnamese Dong" fiat
    ∷ []

-- lines 1310 to 1434
unfoldable pub currencies_eleven : List Currency
currencies_eleven =
    currency "VUV" "Vanuatu Vatu" fiat
    ∷ currency "VXV" "VectorspaceAI" crypto
    ∷ currency "WORX" "WORX Coin" crypto
    ∷ currency "WEB" "Webchain" crypto
    ∷ currency "WRKZ" "WrkzCoin" crypto
    ∷ currency "WST" "Samoan Tala" fiat
    ∷ currency "XAF" "Central African CFA Franc" fiat
    ∷ currency "XCD" "East Caribbean Dollar" fiat
    ∷ currency "XCP" "Counterparty" crypto
    ∷ currency "XDR0" "XDR" crypto
    ∷ currency "XND" "ndau" crypto
    ∷ currency "XMR" "Monero" crypto
    ∷ currency "XOF" "West African CFA Franc" fiat
    ∷ currency "XPF" "CFP Franc" fiat
    ∷ currency "XRC" "Bitcoin Rhodium" crypto
    ∷ currency "XSL" "Solo" crypto
    ∷ currency "XSPEC" "Spectrecoin" crypto
    ∷ currency "XZC" "Zcoin" crypto
    ∷ currency "YCE" "Myce" crypto
    ∷ currency "YER" "Yemeni Rial" fiat
    ∷ currency "ZOD" "Krypton" crypto
    ∷ currency "ZEN" "Horizen" crypto
    ∷ currency "ZAR" "South African Rand" fiat
    ∷ currency "ZEC" "Zcash" crypto
    ∷ currency "ZEL" "ZelCash" crypto
    ∷ []

-- lines 1435 to 1459
unfoldable pub currencies_twelve : List Currency
currencies_twelve =
    currency "ZERC" "ZeroClassic" crypto
    ∷ currency "ZEN" "Horizen" crypto
    ∷ currency "ZER" "Zero" crypto
    ∷ currency "ZMW" "Zambian Kwacha" fiat
    ∷ currency "ZWL" "Zimbabwean Dollar (2009)" fiat
    ∷ []
