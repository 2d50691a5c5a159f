-- ===== src/Ntt.antt =====
-- The number theoretic transform: src/mldsa87/ntt.c, and the table ZETAS of src/mldsa87/constant.c.
pub mod Roots
use ledger_app_qrl_v.Prelude.{
  ℕ, zero, suc, ◌+◌, ◌-◌, ◌*◌, ◌/◌, ◌%◌, ◌^◌, List, [], ◌∷◌, ◌++◌, map, zip_with, take, drop,
  get_or, ltb, if◌then◌else◌,
}
use ledger_app_qrl_v.Word32.{add32, sub32, neg32, mul64}
use ledger_app_qrl_v.Reduce.{montgomery_reduce}

-- A negative literal.
abbrev neg : ℕ → ℕ
neg n = 2 ^ 32 - n

abbrev pub zetas : List ℕ
zetas =
    0
    ∷ 25847
    ∷ neg 2608894
    ∷ neg 518909
    ∷ 237124
    ∷ neg 777960
    ∷ neg 876248
    ∷ 466468
    ∷ 1826347
    ∷ 2353451
    ∷ neg 359251
    ∷ neg 2091905
    ∷ 3119733
    ∷ neg 2884855
    ∷ 3111497
    ∷ 2680103
    ∷ 2725464
    ∷ 1024112
    ∷ neg 1079900
    ∷ 3585928
    ∷ neg 549488
    ∷ neg 1119584
    ∷ 2619752
    ∷ neg 2108549
    ∷ neg 2118186
    ∷ neg 3859737
    ∷ neg 1399561
    ∷ neg 3277672
    ∷ 1757237
    ∷ neg 19422
    ∷ 4010497
    ∷ 280005
    ∷ 2706023
    ∷ 95776
    ∷ 3077325
    ∷ 3530437
    ∷ neg 1661693
    ∷ neg 3592148
    ∷ neg 2537516
    ∷ 3915439
    ∷ neg 3861115
    ∷ neg 3043716
    ∷ 3574422
    ∷ neg 2867647
    ∷ 3539968
    ∷ neg 300467
    ∷ 2348700
    ∷ neg 539299
    ∷ neg 1699267
    ∷ neg 1643818
    ∷ 3505694
    ∷ neg 3821735
    ∷ 3507263
    ∷ neg 2140649
    ∷ neg 1600420
    ∷ 3699596
    ∷ 811944
    ∷ 531354
    ∷ 954230
    ∷ 3881043
    ∷ 3900724
    ∷ neg 2556880
    ∷ 2071892
    ∷ neg 2797779
    ∷ neg 3930395
    ∷ neg 1528703
    ∷ neg 3677745
    ∷ neg 3041255
    ∷ neg 1452451
    ∷ 3475950
    ∷ 2176455
    ∷ neg 1585221
    ∷ neg 1257611
    ∷ 1939314
    ∷ neg 4083598
    ∷ neg 1000202
    ∷ neg 3190144
    ∷ neg 3157330
    ∷ neg 3632928
    ∷ 126922
    ∷ 3412210
    ∷ neg 983419
    ∷ 2147896
    ∷ 2715295
    ∷ neg 2967645
    ∷ neg 3693493
    ∷ neg 411027
    ∷ neg 2477047
    ∷ neg 671102
    ∷ neg 1228525
    ∷ neg 22981
    ∷ neg 1308169
    ∷ neg 381987
    ∷ 1349076
    ∷ 1852771
    ∷ neg 1430430
    ∷ neg 3343383
    ∷ 264944
    ∷ 508951
    ∷ 3097992
    ∷ 44288
    ∷ neg 1100098
    ∷ 904516
    ∷ 3958618
    ∷ neg 3724342
    ∷ neg 8578
    ∷ 1653064
    ∷ neg 3249728
    ∷ 2389356
    ∷ neg 210977
    ∷ 759969
    ∷ neg 1316856
    ∷ 189548
    ∷ neg 3553272
    ∷ 3159746
    ∷ neg 1851402
    ∷ neg 2409325
    ∷ neg 177440
    ∷ 1315589
    ∷ 1341330
    ∷ 1285669
    ∷ neg 1584928
    ∷ neg 812732
    ∷ neg 1439742
    ∷ neg 3019102
    ∷ neg 3881060
    ∷ neg 3628969
    ∷ 3839961
    ∷ 2091667
    ∷ 3407706
    ∷ 2316500
    ∷ 3817976
    ∷ neg 3342478
    ∷ 2244091
    ∷ neg 2446433
    ∷ neg 3562462
    ∷ 266997
    ∷ 2434439
    ∷ neg 1235728
    ∷ 3513181
    ∷ neg 3520352
    ∷ neg 3759364
    ∷ neg 1197226
    ∷ neg 3193378
    ∷ 900702
    ∷ 1859098
    ∷ 909542
    ∷ 819034
    ∷ 495491
    ∷ neg 1613174
    ∷ neg 43260
    ∷ neg 522500
    ∷ neg 655327
    ∷ neg 3122442
    ∷ 2031748
    ∷ 3207046
    ∷ neg 3556995
    ∷ neg 525098
    ∷ neg 768622
    ∷ neg 3595838
    ∷ 342297
    ∷ 286988
    ∷ neg 2437823
    ∷ 4108315
    ∷ 3437287
    ∷ neg 3342277
    ∷ 1735879
    ∷ 203044
    ∷ 2842341
    ∷ 2691481
    ∷ neg 2590150
    ∷ 1265009
    ∷ 4055324
    ∷ 1247620
    ∷ 2486353
    ∷ 1595974
    ∷ neg 3767016
    ∷ 1250494
    ∷ 2635921
    ∷ neg 3548272
    ∷ neg 2994039
    ∷ 1869119
    ∷ 1903435
    ∷ neg 1050970
    ∷ neg 1333058
    ∷ 1237275
    ∷ neg 3318210
    ∷ neg 1430225
    ∷ neg 451100
    ∷ 1312455
    ∷ 3306115
    ∷ neg 1962642
    ∷ neg 1279661
    ∷ 1917081
    ∷ neg 2546312
    ∷ neg 1374803
    ∷ 1500165
    ∷ 777191
    ∷ 2235880
    ∷ 3406031
    ∷ neg 542412
    ∷ neg 2831860
    ∷ neg 1671176
    ∷ neg 1846953
    ∷ neg 2584293
    ∷ neg 3724270
    ∷ 594136
    ∷ neg 3776993
    ∷ neg 2013608
    ∷ 2432395
    ∷ 2454455
    ∷ neg 164721
    ∷ 1957272
    ∷ 3369112
    ∷ 185531
    ∷ neg 1207385
    ∷ neg 3183426
    ∷ 162844
    ∷ 1616392
    ∷ 3014001
    ∷ 810149
    ∷ 1652634
    ∷ neg 3694233
    ∷ neg 1799107
    ∷ neg 3038916
    ∷ 3523897
    ∷ 3866901
    ∷ 269760
    ∷ 2213111
    ∷ neg 975884
    ∷ 1717735
    ∷ 472078
    ∷ neg 426683
    ∷ 1723600
    ∷ neg 1803090
    ∷ 1910376
    ∷ neg 1667432
    ∷ neg 1104333
    ∷ neg 260646
    ∷ neg 3833893
    ∷ neg 2939036
    ∷ neg 2235985
    ∷ neg 420899
    ∷ neg 2286327
    ∷ 183443
    ∷ neg 976891
    ∷ 1612842
    ∷ neg 3545687
    ∷ neg 554416
    ∷ 3919660
    ∷ neg 48306
    ∷ neg 1362209
    ∷ 3937738
    ∷ 1400424
    ∷ neg 846154
    ∷ 1976782
    ∷ []

-- The loops over `start` and `j` of ntt: the block from `start` on has `count` coefficients
-- `(*a)[j]`, and then the `count` coefficients `(*a)[j + count]`. `k` is the number of the blocks
-- done before.
unfoldable pub ntt_blocks : (blocks count k : ℕ) → List ℕ → List ℕ
ntt_blocks zero count k a = a
ntt_blocks (suc blocks) count k a =
    let zeta = get_or zetas (suc k) 0 in
    let low = take count a in
    let t = map (λ x. montgomery_reduce (mul64 zeta x)) (take count (drop count a)) in
    zip_with add32 low t
    ++ (zip_with sub32 low t ++ ntt_blocks blocks count (suc k) (drop (count + count) a))

-- `for (count = 128; count > 0; count >>= 1)`: eight rounds.
unfoldable pub ntt_layers : (rounds count k : ℕ) → List ℕ → List ℕ
ntt_layers zero count k a = a
ntt_layers (suc rounds) count k a =
    let blocks = 256 / (count + count) in
    ntt_layers rounds (count / 2) (k + blocks) (ntt_blocks blocks count k a)

unfoldable pub ntt : List ℕ → List ℕ
ntt a = ntt_layers 8 128 0 a

unfoldable pub inv_ntt_blocks : (blocks count k : ℕ) → List ℕ → List ℕ
inv_ntt_blocks zero count k a = a
inv_ntt_blocks (suc blocks) count k a =
    let zeta = neg32 (get_or zetas (k - 1) 0) in
    let low = take count a in
    let high = take count (drop count a) in
    zip_with add32 low high
    ++ (map (λ x. montgomery_reduce (mul64 zeta x)) (zip_with sub32 low high)
        ++ inv_ntt_blocks blocks count (k - 1) (drop (count + count) a))

-- `for (count = 1; count < N; count <<= 1)`: eight rounds.
unfoldable pub inv_ntt_layers : (rounds count k : ℕ) → List ℕ → List ℕ
inv_ntt_layers zero count k a = a
inv_ntt_layers (suc rounds) count k a =
    let blocks = 256 / (count + count) in
    inv_ntt_layers rounds (count + count) (k - blocks) (inv_ntt_blocks blocks count k a)

unfoldable pub inv_ntt_to_mont : List ℕ → List ℕ
inv_ntt_to_mont a = map (λ x. montgomery_reduce (mul64 41978 x)) (inv_ntt_layers 8 1 256 a)
