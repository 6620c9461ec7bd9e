-- ===== src/Examples/Para.antt =====
-- A parameter struct, with its fields numbered but for the first ones.
use virtual_force.Force.Regions.{ParaForceStdInfo}

abbrev pub std_para : ParaForceStdInfo
std_para = record {
  arm = 1;
  elbow = 2;
  wrist = 3;
  flip = 0;
  dh_d1 = 0x1000;
  dh_a1 = 5;
  dh_alpha1 = 6;
  dh_offset1 = 7;
  dh_d2 = 8;
  dh_a2 = 9;
  dh_alpha2 = 10;
  dh_offset2 = 11;
  dh_d3 = 12;
  dh_a4 = 13;
  dh_alpha4 = 14;
  dh_offset4 = 15;
  dh_d4 = 16;
  dh_a5 = 17;
  dh_alpha5 = 18;
  dh_offset5 = 19;
  dh_d6 = 20;
  dh_a6 = 21;
  dh_alpha6 = 22;
  dh_offset6 = 23;
  base_rmtx_0_0 = 24;
  base_rmtx_0_1 = 25;
  base_rmtx_0_2 = 26;
  base_rmtx_1_0 = 27;
  base_rmtx_1_1 = 28;
  base_rmtx_1_2 = 29;
  base_rmtx_2_0 = 30;
  base_rmtx_2_1 = 31;
  base_rmtx_2_2 = 32;
  base_p_x = 33;
  base_p_y = 34;
  base_p_z = 35;
  bd_v1 = 36;
  bd_v2 = 37;
  bd_v3 = 38;
  bd_v4 = 39;
  bd_v5 = 40;
  bd_v6 = 41;
  kd_v1 = 42;
  kd_v2 = 43;
  kd_v3 = 44;
  kd_v4 = 45;
  kd_v5 = 46;
  kd_v6 = 47;
  md_v1 = 48;
  md_v2 = 49;
  md_v3 = 50;
  md_v4 = 51;
  md_v5 = 52;
  md_v6 = 53;
  imped_kp_1 = 54;
  imped_ki_1 = 55;
  imped_kd_1 = 56;
  imped_kp_2 = 57;
  imped_ki_2 = 58;
  imped_kd_2 = 59;
  imped_kp_3 = 60;
  imped_ki_3 = 61;
  imped_kd_3 = 62;
  imped_kp_4 = 63;
  imped_ki_4 = 64;
  imped_kd_4 = 65;
  imped_kp_5 = 66;
  imped_ki_5 = 67;
  imped_kd_5 = 68;
  imped_kp_6 = 69;
  imped_ki_6 = 70;
  imped_kd_6 = 71;
  adnit_kp_1 = 72;
  adnit_ki_1 = 73;
  adnit_kd_1 = 74;
  adnit_kp_2 = 75;
  adnit_ki_2 = 76;
  adnit_kd_2 = 77;
  adnit_kp_3 = 78;
  adnit_ki_3 = 79;
  adnit_kd_3 = 80;
  adnit_kp_4 = 81;
  adnit_ki_4 = 82;
  adnit_kd_4 = 83;
  adnit_kp_5 = 84;
  adnit_ki_5 = 85;
  adnit_kd_5 = 86;
  adnit_kp_6 = 87;
  adnit_ki_6 = 88;
  adnit_kd_6 = 89;
}
